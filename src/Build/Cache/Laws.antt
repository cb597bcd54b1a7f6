-- ===== src/Build/Cache/Laws.antt =====
-- The caches that a build may import from and export to.
use docker_in_k8s.Common.{
  ◌≡◌, refl, ◌∙◌, ap, subst, ◌⊎◌, inl, inr, Bool, true, not, ◌&&◌, ◌||◌, List, [], ◌∷◌, ◌++◌, arith,
  All, length, Bool-cases,
}
use docker_in_k8s.Text.{
  Text, codes, ◌==◌, eq_iff, cut, split, split-append, contains, contains-append,
}
use docker_in_k8s.Result.{ok, traverse-All, ok-injective, err-ne-ok}
use docker_in_k8s.Build.Cache.{
  cache_type_from, cache_type, full_entry, insecure_entry, normalize_cache_entry,
  normalize_cache_entries,
}

-- An entry that BuildKit may be given: a registry, or the image itself for an export; with
-- --registry-insecure a registry's entry says whether its connection may be insecure.
pub record IsCacheEntry (insecure export : Bool) (entry : Text) : Type 0 where
  pub backend :
      (cache_type entry ≡ codes "registry")
      ⊎ ((export ≡ true) × (cache_type entry ≡ codes "inline"))
  pub marked :
      (not insecure
        || (not (cache_type entry == codes "registry")
            || contains entry (codes "registry.insecure=")))
      ≡ true

cache_type_from-append :
    (xs ys : List Text) (found : Text)
    → cache_type_from found (xs ++ ys) ≡ cache_type_from (cache_type_from found xs) ys
unfolding cache_type_from
cache_type_from-append [] ys found = refl
cache_type_from-append (x ∷ xs) ys found = cache_type_from-append xs ys _

-- The field that is added is no type.
cache_type-insecure :
    (entry : Text) → cache_type (entry ++ codes ",registry.insecure=true") ≡ cache_type entry
cache_type-insecure entry =
    ap (cache_type_from []) (split-append b',' entry (codes "registry.insecure=true"))
    ∙ cache_type_from-append (split entry b',') (split (codes "registry.insecure=true") b',') []
    ∙ added (cache_type entry)
  where
    added :
        (found : Text) → cache_type_from found (split (codes "registry.insecure=true") b',') ≡ found
    added found = unfold cache_type_from split cut ◌==◌ in refl

insecure_entry-IsCacheEntry :
    (insecure export : Bool) (entry : Text)
    → (cache_type entry ≡ codes "registry")
      ⊎ ((export ≡ true) × (cache_type entry ≡ codes "inline"))
    → IsCacheEntry insecure export (insecure_entry insecure (cache_type entry) entry)
unfolding insecure_entry
insecure_entry-IsCacheEntry insecure export entry backend =
    elim (Bool-cases (
      insecure
      && (cache_type entry == codes "registry"
          && not (contains entry (codes "registry.insecure="))))) [
            | inl e ↦ rw e (record {
              backend = rw (cache_type-insecure entry) backend;
              marked =
                  marked_of insecure
                    (cache_type (entry ++ codes ",registry.insecure=true") == codes "registry") _
                    (contains-append entry (codes ",registry.insecure=true")
                      (codes "registry.insecure=") has);
            })
            | inr e ↦ rw e (record { backend = backend; marked = ground arith })
          ]
  where
    has : contains (codes ",registry.insecure=true") (codes "registry.insecure=") ≡ true
    has = unfold contains in refl

    marked_of : (a b c : Bool) → c ≡ true → (not a || (not b || c)) ≡ true
    marked_of a b c h = ground arith

normalize_cache_entry-IsCacheEntry :
    (insecure export : Bool) (value entry : Text)
    → normalize_cache_entry insecure export value ≡ ok entry
    → IsCacheEntry insecure export entry
unfolding normalize_cache_entry
normalize_cache_entry-IsCacheEntry insecure export value entry h =
    elim (Bool-cases (not (type == codes "registry") && not (export && type == codes "inline"))) [
      | inl refused ↦ absurd (err-ne-ok (rw refused at h))
      | inr accepted ↦ subst (IsCacheEntry insecure export) (ok-injective (rw accepted at h)) (
          insecure_entry-IsCacheEntry insecure export (full_entry value)
            (ground (arith, eq_iff type (codes "registry"), eq_iff type (codes "inline"))))
    ]
  where
    type : Text
    type = cache_type (full_entry value)

-- There is one cache entry for each value, each for a registry or, for an export, inline, and
-- with --registry-insecure each registry entry says whether it may be insecure.
pub normalize_cache_entries-IsCacheEntry :
    (values : List Text) (insecure export : Bool) (entries : List Text)
    → normalize_cache_entries values insecure export ≡ ok entries
    → (length entries ≡ length values) × All (IsCacheEntry insecure export) entries
unfolding normalize_cache_entries
normalize_cache_entries-IsCacheEntry values insecure export entries h =
    traverse-All (normalize_cache_entry insecure export) (IsCacheEntry insecure export)
      (normalize_cache_entry-IsCacheEntry insecure export) values entries h
