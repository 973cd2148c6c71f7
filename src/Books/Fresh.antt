-- ===== src/Books/Fresh.antt =====
-- books.service.ts: the entries of the cache that `invalidateListCaches` deletes.
use novelhub.Prelude.{none, some, List, ◌≡◌, ◌≢◌, refl, ap, arith, inl, inr, Option-cases}
use novelhub.Action.{ok}
use novelhub.Prisma.{Prisma}
use novelhub.Schema.{Book, Db}
use novelhub.Books.{
  CategoryCount, BookKey, list_key, featured_key, trending_key, categories_key, ValueOf, BookCache,
  ListBooks, key_of, list_of, featured_of, trending_of, categories_of, read_through, list, featured,
  trending, categories, invalidate_list_caches,
}

-- Every entry of a cache has a property.
abbrev pub Holds : {K : Type 0} → BookCache K → ((k : BookKey) → ValueOf k → Type 0) → K → Type 0
Holds cache P s = (k : BookKey) (v : ValueOf k) → cache.get k s ≡ some v → P k v

-- What a cache does that may forget an entry at any time: an entry is one that was set, or was
-- there before; a deleted one is gone.
pub record IsCache {K : Type 0} (cache : BookCache K) : Type 1 where
  pub set_lem :
      (P : (k : BookKey) → ValueOf k → Type 0) (k : BookKey) (v : ValueOf k) (s : K)
      → P k v
      → Holds cache P s
      → Holds cache P (cache.set k v s)
  pub del_lem :
      (k k' : BookKey) (s : K) (v : ValueOf k')
      → cache.get k' (cache.del k s) ≡ some v
      → (k ≢ k') × (cache.get k' s ≡ some v)

module _ (prisma : Prisma) {K : Type 0} (cache : BookCache K)
    (group_by_category : List Book → List CategoryCount) where
  -- The visits of readers, and the writes of the administration, each of which ends with the
  -- invalidation.
  pub data Runs : Db × K → Type 0 where
    start : (db : Db) (s : K) → ((k : BookKey) → cache.get k s ≡ none) → Runs (db, s)
    visits_list :
        {s : Db × K} (q : ListBooks) → Runs s → Runs (list prisma cache group_by_category q s).1
    visits_featured : {s : Db × K} → Runs s → Runs (featured prisma cache group_by_category s).1
    visits_trending : {s : Db × K} → Runs s → Runs (trending prisma cache group_by_category s).1
    visits_categories : {s : Db × K} → Runs s → Runs (categories prisma cache group_by_category s).1
    writes :
        {db : Db} {s : K} (db' : Db)
        → Runs (db, s)
        → Runs (invalidate_list_caches prisma cache group_by_category (db', s)).1

  -- The entry is what the database gives now, but for the entries of `list`.
  abbrev IsFresh : Db → (k : BookKey) → ValueOf k → Type 0
  IsFresh db (list_key _ _ _ _ _) v = Unit
  IsFresh db featured_key v = v ≡ featured_of prisma db
  IsFresh db trending_key v = v ≡ trending_of prisma db
  IsFresh db categories_key v = v ≡ categories_of prisma cache group_by_category db

  module _ (law : IsCache cache) where
    -- Reading through the cache keeps every entry fresh, and answers a fresh value.
    read-IsFresh :
        (k : BookKey) (read : Db → ValueOf k) (db : Db) (s : K)
        → IsFresh db k (read db)
        → Holds cache (IsFresh db) s
        → let r = read_through prisma cache group_by_category k read (db, s) in
          Holds cache (IsFresh r.1.0) r.1.1
    unfolding read_through
    read-IsFresh k read db s p h = elim (Option-cases (cache.get k s)) [
      | inl e ↦ rw (read_through, e) (law.set_lem (IsFresh db) k (read db) s p h)
      | inr (v, e) ↦ rw (read_through, e) h
    ]

    fresh : {s : Db × K} → Runs s → Holds cache (IsFresh s.0) s.1
    unfolding list featured trending categories invalidate_list_caches
    fresh (start db s empty) = λ k v e. let none_there = empty k in absurd (ground arith)
    fresh (visits_list {s} q run) =
        read-IsFresh (key_of q) (list_of prisma q) s.0 s.1 tt (fresh run)
    fresh (visits_featured {s} run) =
        read-IsFresh featured_key (featured_of prisma) s.0 s.1 refl (fresh run)
    fresh (visits_trending {s} run) =
        read-IsFresh trending_key (trending_of prisma) s.0 s.1 refl (fresh run)
    fresh (visits_categories {s} run) =
        read-IsFresh categories_key (categories_of prisma cache group_by_category) s.0 s.1 refl
          (fresh run)
    fresh (writes {db} {s} db' run) = after
      where
        three : K
        three = cache.del categories_key (cache.del trending_key (cache.del featured_key s))

        after : Holds cache (IsFresh db') three
        after (list_key c t f p l) v e = tt
        after featured_key v e =
            let g = law.del_lem categories_key featured_key _ v e in
            let g' = law.del_lem trending_key featured_key _ v g.1 in
            absurd ((law.del_lem featured_key featured_key s v g'.1).0 refl)
        after trending_key v e =
            let g = law.del_lem categories_key trending_key _ v e in
            absurd ((law.del_lem trending_key trending_key _ v g.1).0 refl)
        after categories_key v e = absurd ((law.del_lem categories_key categories_key _ v e).0 refl)

    answers :
        (k : BookKey) (read : Db → ValueOf k) (s : Db × K)
        → ((v : ValueOf k) → IsFresh s.0 k v → v ≡ read s.0)
        → Holds cache (IsFresh s.0) s.1
        → (read_through prisma cache group_by_category k read s).0 ≡ ok (read s.0)
    unfolding read_through
    answers k read (db, s) same h = elim (Option-cases (cache.get k s)) [
      | inl e ↦ rw (read_through, e) refl
      | inr (v, e) ↦ rw (read_through, e) (ap ok (same v (h k v e)))
    ]

    -- With a cache that may forget but not invent, that is empty at first, the featured books, the
    -- trending books and the categories that a reader is answered are those of the database as it
    -- is, after any visits and any writes of the administration that end with the invalidation.
    pub featured-fresh :
        {s : Db × K}
        → Runs s
        → ((featured prisma cache group_by_category s).0 ≡ ok (featured_of prisma s.0))
          × ((trending prisma cache group_by_category s).0 ≡ ok (trending_of prisma s.0))
          × ((categories prisma cache group_by_category s).0
              ≡ ok (categories_of prisma cache group_by_category s.0))
    unfolding featured trending categories
    featured-fresh {s} run = (
      answers featured_key (featured_of prisma) s (λ v e. e) (fresh run),
      answers trending_key (trending_of prisma) s (λ v e. e) (fresh run),
      answers categories_key (categories_of prisma cache group_by_category) s (λ v e. e)
          (fresh run),
    )
