-- ===== src/Checkin/Once.antt =====
-- checkin.service.ts: claims of one day.
use novelhub.Prelude.{ℕ, Bool, true, none, List, [], ◌∷◌, ◌++◌, ◌≡◌, ◌≢◌, arith, ◌==◌, ◌&&◌}
use novelhub.Prelude.Int.{ℤ}
use novelhub.Action.{Ident, Error, ok, err, domain, conflict, unique_violation}
use novelhub.Action.Gives.{
  Gives, gives-ok, Gives-of_result, Gives-commit, Gives-catch, Gives-bind, Gives-then-Keeps,
}
use novelhub.Prisma.{Prisma, IsDocumented, Uuid, on_lists, uuid_of, eq_on_lists, first}
use novelhub.Schema.{DailyCheckin, checkin_clash, Db}
use novelhub.Ledger.Keeps.{keeps_rules}
use novelhub.Coins.Frame.{adjust_frame}
use novelhub.Checkin.{
  CheckinClaim, create_checkin, award, claim_body, claim_failure, claim, utc_day, find_latest,
  next_streak, reward_for_streak,
}

-- `{ userId_checkinDate: { userId, checkinDate } }`
abbrev pub is_checkin_on : Ident → ℕ → DailyCheckin → Bool
is_checkin_on user_id today c = c.user_id == user_id && c.checkin_date == today

abbrev pub IsDone : Ident → ℕ → Db → Type 0
IsDone user_id today db = first (is_checkin_on user_id today) db.checkins ≢ none

last_is_done :
    (user_id today : Ident) (checkins : List DailyCheckin) (c : DailyCheckin)
    → is_checkin_on user_id today c ≡ true
    → first (is_checkin_on user_id today) (checkins ++ c ∷ []) ≢ none
last_is_done user_id today [] c h = ground arith
last_is_done user_id today (d ∷ checkins) c h =
    ground (arith, last_is_done user_id today checkins c h)

done_clashes :
    (c : DailyCheckin) (checkins : List DailyCheckin)
    → first (is_checkin_on c.user_id c.checkin_date) checkins ≢ none
    → first (checkin_clash c) checkins ≢ none
done_clashes c [] h = h
done_clashes c (d ∷ checkins) h = ground (arith, done_clashes c checkins)

module _ (uuid : Uuid) (user_id : Ident) where
  create-Gives :
      (today streak : ℕ) (reward : ℤ)
      → Gives
          (λ _ db. IsDone user_id today db)
          (create_checkin (on_lists uuid) user_id today streak reward)
  unfolding create_checkin
  create-Gives today streak reward = Gives-of_result _ λ db db' r e. ground (
    arith,
    last_is_done user_id today db.checkins (record {
      id = uuid DailyCheckin (λ c. c.id) db.checkins;
      user_id = user_id;
      checkin_date = today;
      streak_count = streak;
      coins_awarded = reward;
    }),
  )

  award-Gives :
      (now streak : ℕ) (reward : ℤ)
      → Gives
          (λ _ db. IsDone user_id (utc_day now) db)
          (award (on_lists uuid) user_id now streak reward)
  unfolding award
  award-Gives now streak reward =
      let frame = adjust_frame (IsDone user_id (utc_day now)) (λ db users txns p. p) uuid in
      search (keeps_rules, Gives-then-Keeps, create-Gives (utc_day now) streak reward, frame) depth
        9

  body-Gives :
      (now : ℕ)
      → Gives (λ _ db. IsDone user_id (utc_day now) db) (claim_body (on_lists uuid) user_id now)
  unfolding claim_body
  body-Gives now = search (Gives-bind, award-Gives) depth 9

  claim-Gives :
      (now : ℕ)
      → Gives (λ _ db. IsDone user_id (utc_day now) db) (claim (on_lists uuid) user_id now)
  unfolding claim claim_failure
  claim-Gives now = Gives-catch _ _ (Gives-commit _ (body-Gives now)) failure
    where
      failure :
          (e : Error)
          → Gives (λ _ db. IsDone user_id (utc_day now) db) (claim_failure (on_lists uuid) e)
      failure unique_violation = record { at = λ db. tt }
      failure e = record { at = λ db. tt }

  done_refused :
      (now : ℕ) (db : Db)
      → IsDone user_id (utc_day now) db
      → claim (on_lists uuid) user_id now db ≡ (err (domain conflict none), db)
  unfolding claim claim_body claim_failure award create_checkin
  done_refused now db h =
      let streak = next_streak (utc_day now) (find_latest (on_lists uuid) user_id db) in
      let clash =
        done_clashes
          (record {
            id = uuid DailyCheckin (λ c. c.id) db.checkins;
            user_id = user_id;
            checkin_date = utc_day now;
            streak_count = streak;
            coins_awarded = reward_for_streak streak;
          })
          db.checkins h in
      ground (arith, clash)

  claim_again_on_lists :
      (now later : ℕ) (db db' : Db) (r : CheckinClaim)
      → utc_day later ≡ utc_day now
      → claim (on_lists uuid) user_id now db ≡ (ok r, db')
      → claim (on_lists uuid) user_id later db' ≡ (err (domain conflict none), db')
  claim_again_on_lists now later db db' r same e =
      done_refused later db'
        (rw same (gives-ok (claim (on_lists uuid) user_id now) (claim-Gives now) e))

-- Once a claim has returned, a second one on the same UTC day is refused with a 409, and leaves the
-- whole database as it is.
pub claim-again :
    (prisma : Prisma) (user_id now later : Ident) (db db' : Db) (r : CheckinClaim)
    → IsDocumented prisma
    → utc_day later ≡ utc_day now
    → claim prisma user_id now db ≡ (ok r, db')
    → claim prisma user_id later db' ≡ (err (domain conflict none), db')
claim-again prisma user_id now later db db' r doc same =
    rw (eq_on_lists prisma doc)
      (claim_again_on_lists (uuid_of prisma) user_id now later db db' r same)
