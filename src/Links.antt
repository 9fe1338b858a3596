-- ===== src/Links.antt =====
-- Links into a tree that is rewritten in place: a pointer to the place that owns a subtree is the
-- way from the root to it. A tree is given by its children and their replacement.
use mathlib.Core.Option.{none-ne-some, some-injective}
use lambcalc_cpp.Base.{
  ◌≡◌, refl, ◌∙◌, sym, ap, inl, inr, Option, none, some, List, [], ◌∷◌, ◌++◌, Option-cases,
}

-- The children of a tree, and the laws of their replacement.
pub record Tree : Type 1 where
  pub Node : Type 0
  pub Child : Type 0
  pub child : Child → Node → Option Node
  pub set_child : Child → Node → Node → Node
  pub child-set_child :
      (d : Child) (x : Node) {c : Node} (e : Node)
      → child d e ≡ some c
      → child d (set_child d x e) ≡ some x
  pub set_child-set_child :
      (d : Child) (x y e : Node) → set_child d x (set_child d y e) ≡ set_child d x e
  pub set_child-child : (d : Child) {c : Node} (e : Node) → child d e ≡ some c → set_child d c e ≡ e

module _ (t : Tree) where
  open t use {Node, Child, child, set_child, child-set_child, set_child-set_child, set_child-child}

  -- `**link`.
  unfoldable pub get : List Child → Node → Option Node
  get [] e = some e
  get (d ∷ p) e = elim (child d e) [ none ↦ none | some c ↦ get p c ]

  -- `*link = x`.
  unfoldable pub set : List Child → Node → Node → Node
  set [] x e = x
  set (d ∷ p) x e = elim (child d e) [ none ↦ e | some c ↦ set_child d (set p x c) e ]

  get-cons :
      (d : Child) (p : List Child) {c : Node} (e : Node)
      → child d e ≡ some c
      → get (d ∷ p) e ≡ get p c
  unfolding get
  get-cons d p e h = rw (h, get)

  set-cons :
      (d : Child) (p : List Child) (x : Node) {c : Node} (e : Node)
      → child d e ≡ some c
      → set (d ∷ p) x e ≡ set_child d (set p x c) e
  unfolding set
  set-cons d p x e h = rw (h, set)

  -- A link with a way on goes through a child.
  cons-eq-some :
      (d : Child) (p : List Child) {r : Node} (e : Node)
      → get (d ∷ p) e ≡ some r
      → (c : Node) × (child d e ≡ some c) × (get p c ≡ some r)
  unfolding get
  cons-eq-some d p e h = elim (Option-cases (child d e)) [
    | inl no_child ↦ absurd (none-ne-some _ (rw (no_child, get) at h))
    | inr (c, found) ↦ (c, found, rw (found, get) at h)
  ]

  -- Writing through a link, and reading through it and through longer links.
  pub get-set :
      (x : Node) (p : List Child) {r : Node} (e : Node)
      → get p e ≡ some r
      → get p (set p x e) ≡ some x
  unfolding get set
  get-set x [] e h = refl
  get-set x (d ∷ p) e h =
      let (c, found, h') = cons-eq-some d p e h in
      rw (set-cons d p x e found)
        (get-cons d p _ (child-set_child d (set p x c) e found) ∙ get-set x p c h')

  pub set-get : (p : List Child) {r : Node} (e : Node) → get p e ≡ some r → set p r e ≡ e
  unfolding get set
  set-get [] e h = some-injective _ _ (sym h)
  set-get (d ∷ p) e h =
      let (c, found, h') = cons-eq-some d p e h in
      rw (set-cons d p _ e found, set-get p c h') (set_child-child d e found)

  pub set-set :
      (x y : Node) (p : List Child) {r : Node} (e : Node)
      → get p e ≡ some r
      → set p x (set p y e) ≡ set p x e
  unfolding get set
  set-set x y [] e h = refl
  set-set x y (d ∷ p) e h =
      let (c, found, h') = cons-eq-some d p e h in
      rw (set-cons d p y e found, set-cons d p x e found)
        (set-cons d p x _ (child-set_child d (set p y c) e found)
          ∙ rw (set-set x y p c h') (set_child-set_child d _ _ e))

  pub set-append :
      (x : Node) (p q : List Child) {r : Node} (e : Node)
      → get p e ≡ some r
      → set (p ++ q) x e ≡ set p (set q x r) e
  unfolding get set
  set-append x [] q e h = ap (λ r. set q x r) (some-injective _ _ h)
  set-append x (d ∷ p) q e h =
      let (c, found, h') = cons-eq-some d p e h in
      rw (set-cons d (p ++ q) x e found, set-cons d p _ e found, set-append x p q c h')

  pub get-append :
      (p q : List Child) {r : Node} (e : Node) → get p e ≡ some r → get (p ++ q) e ≡ get q r
  unfolding get
  get-append [] q e h = ap (get q) (some-injective _ _ h)
  get-append (d ∷ p) q e h =
      let (c, found, h') = cons-eq-some d p e h in get-cons d (p ++ q) e found ∙ get-append p q c h'
