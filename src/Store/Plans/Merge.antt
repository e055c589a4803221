-- ===== src/Store/Plans/Merge.antt =====
-- internal/core/store.go: what `mergeConfig` does to the entry of each name.
use runner_loom.Base.{
  Bool, String, Option, none, some, List, [], ◌∷◌, ◌++◌, ◌≡◌, refl, sym, ap, ◌∙◌, inl, inr, subst,
  str_eq, is_some, true, false, arith, Bool-cases, eq_iff, if◌then◌else◌,
}
use runner_loom.Config.{Config, Node, Pool, Image, find_node, find_pool, find_image}
use runner_loom.Store.Plans.{merge_nodes, merge_pools, merge_images, merge_config}

-- The first answer that there is.
abbrev pub or_else {ℓ} : {A : Type ℓ} → Option A → Option A → Option A
or_else (some a) o = some a
or_else none o = o

module _ {A : Type 0} where
  or_else-none : (o : Option A) → or_else o none ≡ o
  or_else-none none = refl
  or_else-none (some a) = refl

  -- An entry of a name that is there already is passed over.
  passed_over :
      (o rest : Option A) (x : A) (b : Bool)
      → (b ≡ true → is_some o ≡ true)
      → or_else o rest ≡ or_else o (if b then some x else rest)
  passed_over (some a) rest x b h = refl
  passed_over none rest x true h = cc (h refl)
  passed_over none rest x false h = refl

  -- Another entry is appended.
  appended :
      (o rest : Option A) (x : A) (b : Bool)
      → or_else (or_else o (if b then some x else none)) rest
        ≡ or_else o (if b then some x else rest)
  appended (some a) rest x b = refl
  appended none rest x true = refl
  appended none rest x false = refl

find_node-snoc :
    (xs : List Node) (v : Node) (s : String)
    → find_node (xs ++ v ∷ []) s
      ≡ or_else (find_node xs s) (if str_eq v.name s then some v else none)
unfolding find_node
find_node-snoc [] v s = ground arith
find_node-snoc (x ∷ xs) v s = ground (arith, find_node-snoc xs v s)

merge_nodes-find :
    (old next : List Node) (s : String)
    → find_node (merge_nodes old next) s ≡ or_else (find_node next s) (find_node old s)
unfolding merge_nodes find_node
merge_nodes-find [] next s = sym (or_else-none (find_node next s))
merge_nodes-find (v ∷ old) next s = elim (Bool-cases (is_some (find_node next v.name))) [
  | inl f ↦ rw f (
      merge_nodes-find old next s
      ∙ passed_over (find_node next s) (find_node old s) v (str_eq v.name s)
          (λ e. subst (λ x. is_some (find_node next x) ≡ true) ((eq_iff v.name s).0 e) f))
  | inr f ↦ rw f (
      merge_nodes-find old (next ++ v ∷ []) s
      ∙ ap (λ o. or_else o (find_node old s)) (find_node-snoc next v s)
      ∙ appended (find_node next s) (find_node old s) v (str_eq v.name s))
]

find_pool-snoc :
    (xs : List Pool) (v : Pool) (s : String)
    → find_pool (xs ++ v ∷ []) s
      ≡ or_else (find_pool xs s) (if str_eq v.name s then some v else none)
unfolding find_pool
find_pool-snoc [] v s = ground arith
find_pool-snoc (x ∷ xs) v s = ground (arith, find_pool-snoc xs v s)

merge_pools-find :
    (old next : List Pool) (s : String)
    → find_pool (merge_pools old next) s ≡ or_else (find_pool next s) (find_pool old s)
unfolding merge_pools find_pool
merge_pools-find [] next s = sym (or_else-none (find_pool next s))
merge_pools-find (v ∷ old) next s = elim (Bool-cases (is_some (find_pool next v.name))) [
  | inl f ↦ rw f (
      merge_pools-find old next s
      ∙ passed_over (find_pool next s) (find_pool old s) v (str_eq v.name s)
          (λ e. subst (λ x. is_some (find_pool next x) ≡ true) ((eq_iff v.name s).0 e) f))
  | inr f ↦ rw f (
      merge_pools-find old (next ++ v ∷ []) s
      ∙ ap (λ o. or_else o (find_pool old s)) (find_pool-snoc next v s)
      ∙ appended (find_pool next s) (find_pool old s) v (str_eq v.name s))
]

find_image-snoc :
    (xs : List Image) (v : Image) (s : String)
    → find_image (xs ++ v ∷ []) s
      ≡ or_else (find_image xs s) (if str_eq v.name s then some v else none)
unfolding find_image
find_image-snoc [] v s = ground arith
find_image-snoc (x ∷ xs) v s = ground (arith, find_image-snoc xs v s)

merge_images-find :
    (old next : List Image) (s : String)
    → find_image (merge_images old next) s ≡ or_else (find_image next s) (find_image old s)
unfolding merge_images find_image
merge_images-find [] next s = sym (or_else-none (find_image next s))
merge_images-find (v ∷ old) next s = elim (Bool-cases (is_some (find_image next v.name))) [
  | inl f ↦ rw f (
      merge_images-find old next s
      ∙ passed_over (find_image next s) (find_image old s) v (str_eq v.name s)
          (λ e. subst (λ x. is_some (find_image next x) ≡ true) ((eq_iff v.name s).0 e) f))
  | inr f ↦ rw f (
      merge_images-find old (next ++ v ∷ []) s
      ∙ ap (λ o. or_else o (find_image old s)) (find_image-snoc next v s)
      ∙ appended (find_image next s) (find_image old s) v (str_eq v.name s))
]

-- For every name, the merged configuration's Node, Pool and Image of that name is the new
-- configuration's where it has one, and otherwise the old one's.
pub merge_config-find :
    (old next : Config) (s : String)
    → (find_node (merge_config old next).nodes s
        ≡ or_else (find_node next.nodes s) (find_node old.nodes s))
      × (find_pool (merge_config old next).pools s
          ≡ or_else (find_pool next.pools s) (find_pool old.pools s))
      × (find_image (merge_config old next).images s
          ≡ or_else (find_image next.images s) (find_image old.images s))
unfolding merge_config
merge_config-find old next s = (
  merge_nodes-find old.nodes next.nodes s,
  merge_pools-find old.pools next.pools s,
  merge_images-find old.images next.images s,
)
