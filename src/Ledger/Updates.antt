-- ===== src/Ledger/Updates.antt =====
-- What `where: { id, … }` selects when ids are unique: at most the user with that id.
use novelhub.Prelude.{
  Bool, true, false, none, some, List, [], ◌∷◌, ◌≡◌, ◌≢◌, refl, arith, All, ◌&&◌, sym, ◌∙◌, All-map,
  inl, inr, Bool-cases,
}
use novelhub.Action.{Ident}
use novelhub.Prisma.{first, update_rows, count_rows}
use novelhub.Prisma.Rows.{update_rows-All}
use novelhub.Schema.{User, has_id}
use novelhub.Ledger.{HasOther, HaveUniqueIds}

module _ (id : Ident) where
  first-other :
      (u : User) (users : List User)
      → u.id ≡ id
      → All (HasOther u) users
      → first (has_id id) users ≡ none
  first-other u [] e h = refl
  first-other u (v ∷ users) e h = ground (arith, first-other u users e h.1)

  pub update-other :
      (q : User → Bool) (f : User → User) (users : List User)
      → first (has_id id) users ≡ none
      → (update_rows (λ u. has_id id u && q u) f users ≡ users)
        × (count_rows (λ u. has_id id u && q u) users ≡ 0)
  update-other q f [] h = (refl, refl)
  update-other q f (v ∷ users) h = ground (arith, update-other q f users)

  update-absent :
      (f : User → User) (users : List User)
      → first (has_id id) users ≡ none
      → update_rows (has_id id) f users ≡ users
  update-absent f [] h = refl
  update-absent f (v ∷ users) h = ground (arith, update-absent f users)

  pub update_where-chosen :
      (q : User → Bool) (f : User → User) (users : List User) (u : User)
      → HaveUniqueIds users
      → first (has_id id) users ≡ some u
      → q u ≡ true
      → (update_rows (λ v. has_id id v && q v) f users ≡ update_rows (has_id id) f users)
        × (count_rows (λ v. has_id id v && q v) users ≡ 1)
  update_where-chosen q f [] u h e p = cc
  update_where-chosen q f (v ∷ users) u h e p = ground (
    arith,
    update_where-chosen q f users u h.1,
    first-other v users,
    update-other q f users,
    update-absent f users,
  )

  pub update_where-refused :
      (q : User → Bool) (f : User → User) (users : List User) (u : User)
      → HaveUniqueIds users
      → first (has_id id) users ≡ some u
      → q u ≡ false
      → (update_rows (λ v. has_id id v && q v) f users ≡ users)
        × (count_rows (λ v. has_id id v && q v) users ≡ 0)
  update_where-refused q f [] u h e p = cc
  update_where-refused q f (v ∷ users) u h e p =
      ground
        (arith, update_where-refused q f users u h.1, first-other v users, update-other q f users)

  pub first-update :
      (f : User → User) (users : List User) (u : User)
      → ((v : User) → (f v).id ≡ v.id)
      → first (has_id id) users ≡ some u
      → first (has_id id) (update_rows (has_id id) f users) ≡ some (f u)
  first-update f [] u k e = cc
  first-update f (v ∷ users) u k e = ground (arith, k v, first-update f users u k)

pub update_unique :
    (w : User → Bool) (f : User → User) (users : List User)
    → ((v : User) → (f v).id ≡ v.id)
    → HaveUniqueIds users
    → HaveUniqueIds (update_rows w f users)
update_unique w f [] k h = tt
update_unique w f (u ∷ users) k h = elim (Bool-cases (w u)) [
  | inl q ↦ rw q (
    All-map (HasOther u) (HasOther (f u)) (update_rows w f users) (λ v ne e. ne (e ∙ k u)) others,
    update_unique w f users k h.1,
  )
  | inr q ↦ rw q (others, update_unique w f users k h.1)
]
  where
    others : All (HasOther u) (update_rows w f users)
    others = update_rows-All (HasOther u) w f users (λ v _ ne e. ne (sym (k v) ∙ e)) h.0

-- No update removes a user.
pub update-present :
    (id : Ident) (w : User → Bool) (f : User → User) (users : List User)
    → ((v : User) → (f v).id ≡ v.id)
    → first (has_id id) users ≢ none
    → first (has_id id) (update_rows w f users) ≢ none
update-present id w f [] k h = h
update-present id w f (u ∷ users) k h = ground (arith, k u, update-present id w f users k)
