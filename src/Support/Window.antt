-- ===== src/Support/Window.antt =====
-- The counter of the contact form and the mails that it counts.
use Prim.Native.String.{String}
use text.Mathlib.Text.{◌==◌ as str_eq}
use novelhub.Prelude.{
  ℕ, suc, ◌+◌, ◌*◌, ◌≤◌, ◌<◌, ◌⊎◌, true, false, ◌&&◌, Option, none, some, List, [], ◌∷◌, ◌++◌,
  length, ltb, leb, get_or, if◌then◌else◌, ◌≡◌, refl, ap, ◌∙◌, arith, All, All-map, inl, inr,
  Bool-cases,
}
use novelhub.Support.{CounterCache, support_per_email_limit, support_per_email_window_seconds}

-- What a cache that is at hand does: an item is there until its life is over.
pub record IsCache {S : Type 0} (cache : CounterCache S) : Type 0 where
  pub get-set :
      (key : String) (value seconds now later : ℕ) (s : S)
      → now ≤ later
      → cache.get key later (cache.set key value seconds now s)
        ≡ (if ltb later (now + 1000 * seconds) then some value else none)
  pub get-set_other :
      (key other : String) (value seconds now later : ℕ) (s : S)
      → str_eq other key ≡ false
      → cache.get key later (cache.set other value seconds now s) ≡ cache.get key later s

abbrev pub day_ms : ℕ
day_ms = 1000 * support_per_email_window_seconds

-- How many of some times lie in the day that begins at `start`.
abbrev pub count_in_day : ℕ → List ℕ → ℕ
count_in_day start [] = 0
count_in_day start (t ∷ times) =
    (if leb start t && ltb t (start + day_ms) then 1 else 0) + count_in_day start times

count_in_day-length : (start : ℕ) (times : List ℕ) → count_in_day start times ≤ length times
count_in_day-length start [] = omega arith
count_in_day-length start (t ∷ times) = ground (arith, count_in_day-length start times)

-- None of the old times lies in a day with `c`.
count_in_day-old :
    (start c : ℕ) (old : List ℕ)
    → start ≤ c
    → c < start + day_ms
    → All (λ o. o + day_ms ≤ c) old
    → count_in_day start old ≡ 0
count_in_day-old start c [] h k all = refl
count_in_day-old start c (o ∷ old) h k all = ground (arith, count_in_day-old start c old, all.0)

-- The mails that the counter counts, and those before them.
pub record IsSplit (chain old : List ℕ) : Type 0 where
  pub few : length chain ≤ support_per_email_limit
  pub old_few : (start : ℕ) → count_in_day start old ≤ support_per_email_limit
  pub apart : All (λ c. All (λ o. o + day_ms ≤ c) old) chain

count-append :
    (start : ℕ) (xs ys : List ℕ)
    → count_in_day start (xs ++ ys) ≡ count_in_day start xs + count_in_day start ys
count-append start [] ys = omega arith
count-append start (x ∷ xs) ys = omega (arith, count-append start xs ys)

in_day_or_old :
    (start : ℕ) (chain old : List ℕ)
    → All (λ c. All (λ o. o + day_ms ≤ c) old) chain
    → (count_in_day start chain ≡ 0) ⊎ (count_in_day start old ≡ 0)
in_day_or_old start [] old h = inl refl
in_day_or_old start (c ∷ chain) old h = elim (Bool-cases (leb start c && ltb c (start + day_ms))) [
  | inl e ↦ inr (count_in_day-old start c old (ground (arith, e)) (ground (arith, e)) h.0)
  | inr e ↦ elim (in_day_or_old start chain old h.1) [
    | inl z ↦ inl (rw e (omega arith))
    | inr z ↦ inr z
  ]
]

IsSplit-count :
    (chain old : List ℕ)
    → IsSplit chain old
    → (start : ℕ) → count_in_day start (chain ++ old) ≤ support_per_email_limit
IsSplit-count chain old split start = elim (in_day_or_old start chain old split.apart) [
  | inl e ↦ omega (arith, count-append start chain old, split.old_few start)
  | inr e ↦ omega (arith, count-append start chain old, count_in_day-length start chain, split.few)
]

ltb-ge : (a b : ℕ) → ltb a b ≡ false → b ≤ a
ltb-ge a b h = ground arith

few_more :
    {found : Option ℕ} {n : ℕ}
    → found ≡ some (suc n)
    → leb support_per_email_limit (get_or found 0) ≡ false
    → suc (suc n) ≤ support_per_email_limit
few_more e h = ground arith

All-join : (P : ℕ → Type 0) (xs ys : List ℕ) → All P xs → All P ys → All P (xs ++ ys)
All-join P [] ys h k = k
All-join P (x ∷ xs) ys h k = (h.0, All-join P xs ys h.1 k)

module _ (now last : ℕ) (chain old : List ℕ) (split : IsSplit (last ∷ chain) old) where
  -- A mail that the counter counts on.
  longer-IsSplit :
      last ≤ now
      → suc (suc (length chain)) ≤ support_per_email_limit
      → IsSplit (now ∷ last ∷ chain) old
  longer-IsSplit past few = record {
    few = few;
    old_few = split.old_few;
    apart = (All-map _ _ old (λ o j. omega arith) split.apart.0, split.apart);
  }

  -- A mail after a gap of a day.
  new-IsSplit :
      All (λ c. c ≤ last) chain → last + day_ms ≤ now → IsSplit (now ∷ []) (last ∷ (chain ++ old))
  new-IsSplit le over = record {
    few = omega arith;
    old_few = λ start. IsSplit-count (last ∷ chain) old split start;
    apart = (
      (
        over,
        All-join _ chain old (All-map _ _ chain (λ c j. omega arith) le)
            (All-map _ _ old (λ o j. omega arith) split.apart.0),
      ),
      tt,
    );
  }

module _ {S : Type 0} (cache : CounterCache S) (key : String) where
  -- The cache holds the counter of the mails since the last gap of a day.
  pub data IsCounted (now : ℕ) (s : S) (sent : List ℕ) : Type 0 where
    never :
        sent ≡ []
        → ((later : ℕ) → now ≤ later → cache.get key later s ≡ none)
        → IsCounted now s sent
    counted :
        (last : ℕ) (chain old : List ℕ)
        → sent ≡ last ∷ (chain ++ old)
        → IsSplit (last ∷ chain) old
        → All (λ c. c ≤ last) chain
        → last ≤ now
        → ((later : ℕ)
            → now ≤ later
            → cache.get key later s
              ≡ (if ltb later (last + day_ms) then some (suc (length chain)) else none))
        → IsCounted now s sent

  pub later-IsCounted :
      (now later : ℕ) (s : S) (sent : List ℕ)
      → now ≤ later
      → IsCounted now s sent
      → IsCounted later s sent
  later-IsCounted now later s sent h (never e g) = never e (λ t k. g t (omega arith))
  later-IsCounted now later s sent h (counted last chain old e split le past g) =
      counted last chain old e split le (omega arith) (λ t k. g t (omega arith))

  pub IsCounted-count :
      (now : ℕ) (s : S) (sent : List ℕ)
      → IsCounted now s sent
      → (start : ℕ) → count_in_day start sent ≤ support_per_email_limit
  IsCounted-count now s sent (never e g) start = rw e (omega arith)
  IsCounted-count now s sent (counted last chain old e split le past g) start =
      rw e (IsSplit-count (last ∷ chain) old split start)

  live_count :
      (now : ℕ) (s : S) (end n : ℕ)
      → cache.get key now s ≡ (if ltb now end then some (suc n) else none)
      → ltb now end ≡ true
      → cache.get key now s ≡ some (suc n)
  live_count now s end n g h = g ∙ (rw h refl)

  over_count :
      (now : ℕ) (s : S) (end n : ℕ)
      → cache.get key now s ≡ (if ltb now end then some (suc n) else none)
      → ltb now end ≡ false
      → cache.get key now s ≡ none
  over_count now s end n g h = g ∙ (rw h refl)

  module _ (law : IsCache cache) where
    -- The counter after a mail.
    counted_set :
        (previous n now later : ℕ) (s : S)
        → previous + 1 ≡ n
        → now ≤ later
        → cache.get key later (cache.set key (previous + 1) support_per_email_window_seconds now s)
          ≡ (if ltb later (now + day_ms) then some n else none)
    counted_set previous n now later s e h =
        rw (law.get-set key (previous + 1) support_per_email_window_seconds now later s h, e)

    pub set-IsCounted :
        (now : ℕ) (s : S) (sent : List ℕ)
        → IsCounted now s sent
        → leb support_per_email_limit (get_or (cache.get key now s) 0) ≡ false
        → IsCounted now
            (cache.set key
              (get_or (cache.get key now s) 0 + 1)
              support_per_email_window_seconds
              now
              s)
            (now ∷ sent)
    set-IsCounted now s sent (never e g) h =
        counted now [] [] (ap (λ l. now ∷ l) e)
          (record { few = omega arith; old_few = λ start. omega arith; apart = (tt, tt) }) tt
          (omega arith) (λ later k. counted_set _ 1 now later s (rw (g now (omega arith)) refl) k)
    set-IsCounted now s sent (counted last chain old e split le past g) h =
        elim (Bool-cases (ltb now (last + day_ms))) [
          | inl live ↦
              let found =
                live_count now s (last + day_ms) (length chain) (g now (omega arith)) live in
              counted now (last ∷ chain) old (ap (λ l. now ∷ l) e)
                (longer-IsSplit now last chain old split past (few_more found h))
                (past, All-map _ _ chain (λ c k. omega arith) le) (omega arith)
                (λ later k.
                  counted_set _ (suc (suc (length chain))) now later s (rw found (omega arith)) k)
          | inr over ↦
              let found =
                over_count now s (last + day_ms) (length chain) (g now (omega arith)) over in
              counted now [] (last ∷ (chain ++ old)) (ap (λ l. now ∷ l) e)
                (new-IsSplit now last chain old split le (ltb-ge now (last + day_ms) over)) tt
                (omega arith) (λ later k. counted_set _ 1 now later s (rw found refl) k)
        ]

    -- A counter of another address changes nothing.
    pub set_other-IsCounted :
        (other : String) (value now : ℕ) (s : S) (sent : List ℕ)
        → str_eq other key ≡ false
        → IsCounted now s sent
        → IsCounted now (cache.set other value support_per_email_window_seconds now s) sent
    set_other-IsCounted other value now s sent d (never e g) =
        never e (λ later k. law.get-set_other key other value _ now later s d ∙ g later k)
    set_other-IsCounted other value now s sent d (counted last chain old e split le past g) =
        counted last chain old e split le past
          (λ later k. law.get-set_other key other value _ now later s d ∙ g later k)
