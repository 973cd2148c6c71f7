-- ===== src/Notifications/Reminded.antt =====
-- `findUsersForReEngagement` of notifications.service.ts.
use novelhub.Prelude.{
  ℕ, ◌≤◌, ◌-◌, ◌*◌, false, some, List, [], ◌∷◌, ◌≡◌, ◌≢◌, arith, All, All-map, inl, inr, Bool-cases,
  Option-cases,
}
use novelhub.Action.{Ident}
use novelhub.Prisma.{
  Prisma, IsDocumented, Uuid, on_lists, uuid_of, eq_on_lists, first, matching, sort, count_rows,
}
use novelhub.Prisma.Rows.{none-All}
use novelhub.Prisma.Top.{sort-All, matching-holds}
use novelhub.Progress.Books.{take-All}
use novelhub.Schema.{ReadingProgress, Db}
use novelhub.Notifications.{
  ReEngagementTarget, hour_ms, read_between, newest_read_first, read_after, contains, target_of,
  collect_targets, find_users_for_re_engagement,
}

-- No user is reminded twice.
abbrev pub AreDistinct : List ReEngagementTarget → Type 0
AreDistinct [] = Unit
AreDistinct (t ∷ targets) =
    All (λ (s : ReEngagementTarget). s.user_id ≢ t.user_id) targets × AreDistinct targets

-- The user has read nothing after a time.
abbrev pub IsIdleSince : ℕ → Db → ReEngagementTarget → Type 0
IsIdleSince time db t =
    All (λ (q : ReadingProgress). q.user_id ≡ some t.user_id → q.last_read_at ≤ time) db.progress

module _ (uuid : Uuid) (db : Db) (upper : ℕ) where
  abbrev AreReminded : List Ident → List ReEngagementTarget → Type 0
  AreReminded seen targets =
      All (λ (t : ReEngagementTarget). contains seen t.user_id ≡ false) targets
      × AreDistinct targets
      × All (IsIdleSince upper db) targets

  idle :
      (user_id time : ℕ) (rows : List ReadingProgress)
      → time ≤ upper
      → All (λ q. read_after user_id time q ≡ false) rows
      → All (λ (q : ReadingProgress). q.user_id ≡ some user_id → q.last_read_at ≤ upper) rows
  idle user_id time [] le h = tt
  idle user_id time (q ∷ rows) le h =
      ((λ same. ground (arith, h.0, same, le)), idle user_id time rows le h.1)

  -- A user who was not seen before is left out of what comes after.
  later_seen :
      (u : Ident) (seen : List Ident) (targets : List ReEngagementTarget)
      → All (λ (t : ReEngagementTarget). contains (u ∷ seen) t.user_id ≡ false) targets
      → All (λ (t : ReEngagementTarget). contains seen t.user_id ≡ false) targets
        × All (λ (t : ReEngagementTarget). t.user_id ≢ u) targets
  later_seen u seen [] h = (tt, tt)
  later_seen u seen (t ∷ targets) h =
      let (a, b) = later_seen u seen targets h.1 in
      ((ground (arith, h.0), a), ((λ same. absurd (ground (arith, h.0, same))), b))

  collected :
      (seen : List Ident) (rows : List ReadingProgress)
      → All (λ (p : ReadingProgress). p.last_read_at ≤ upper) rows
      → AreReminded seen (collect_targets (on_lists uuid) db seen rows)
  unfolding collect_targets target_of
  collected seen [] h = (tt, tt, tt)
  collected seen (p ∷ rows) h = elim (Option-cases p.user_id) [
    | inl e ↦ rw e (collected seen rows h.1)
    | inr (u, e) ↦ rw e (elim (Bool-cases (contains seen u)) [
      | inl old ↦ rw old (collected seen rows h.1)
      | inr new ↦
          let (new_ones, distinct, quiet) = collected (u ∷ seen) rows h.1 in
          let (unseen, others) = later_seen u seen _ new_ones in
          rw new (elim (Option-cases (first (read_after u p.last_read_at) db.progress)) [
            | inl e1 ↦ rw e1 (
              (new, unseen),
              (others, distinct),
              (idle u p.last_read_at db.progress h.0 (none-All _ db.progress e1), quiet),
            )
            | inr (q, e1) ↦ rw e1 (unseen, distinct, quiet)
          ])
    ])
  ]

  within :
      (lower : ℕ)
      → All
          (λ (p : ReadingProgress). p.last_read_at ≤ upper)
          (sort newest_read_first (matching (read_between lower upper) db.progress))
  within lower = sort-All _ newest_read_first (matching (read_between lower upper) db.progress) (
      All-map _ _ (matching (read_between lower upper) db.progress) (λ p h. ground (arith, h))
        (matching-holds (read_between lower upper) db.progress))

answers :
    (uuid : Uuid) (now : ℕ) (db : Db)
    → AreDistinct (find_users_for_re_engagement (on_lists uuid) now db)
      × All
          (IsIdleSince (now - 24 * hour_ms) db)
          (find_users_for_re_engagement (on_lists uuid) now db)
unfolding find_users_for_re_engagement
answers uuid now db =
    let upper = now - 24 * hour_ms in
    let (_, distinct, quiet) = collected uuid db upper [] _ (
      take-All _ (count_rows (read_between (now - 30 * hour_ms) upper) db.progress) _
        (within uuid db upper (now - 30 * hour_ms))) in
    (distinct, quiet)

module _ (prisma : Prisma) (doc : IsDocumented prisma) where
  -- What `find_users_for_re_engagement` finds are distinct users who have read nothing in the last
  -- 24 hours: no user is reminded twice, and none who is reading.
  pub find_users_for_re_engagement-AreDistinct :
      (now : ℕ) (db : Db)
      → AreDistinct (find_users_for_re_engagement prisma now db)
        × All (IsIdleSince (now - 24 * hour_ms) db) (find_users_for_re_engagement prisma now db)
  find_users_for_re_engagement-AreDistinct now db =
      rw (eq_on_lists prisma doc) (answers (uuid_of prisma) now db)
