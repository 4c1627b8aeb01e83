-- ===== src/PermPath/Offered.antt =====
-- The store offers its own paths and that of each resource, the latter once.
use pve_manager_electrified.Prelude.{
  ◌≡◌, refl, ap, ◌∙◌, Bool, false, ◌||◌, Option, none, some, List, [], ◌∷◌, ◌++◌, arith, Bool-cases,
  inl, inr,
}
use pve_manager_electrified.Text.{Text, text_eq, text_mem}
use pve_manager_electrified.Text.Equality.{text_mem-append, text_eq_iff}
use pve_manager_electrified.Parser.Acme.Domains.{IsDistinct}
use pve_manager_electrified.PermPath.{
  Resource, path_of, add_path, add_paths, static_paths, perm_paths,
}

abbrev is_path : Text → Option Text → Bool
is_path p none = false
is_path p (some q) = text_eq p q

-- Whether a path is that of one of the resources.
pub is_path_of_any : Text → List Resource → Bool
is_path_of_any p [] = false
is_path_of_any p (r ∷ resources) = is_path p (path_of r) || is_path_of_any p resources

or-false : (b : Bool) → b ≡ (b || false)
or-false b = ground arith

text_mem-one : (p q : Text) → text_mem p (q ∷ []) ≡ text_eq p q
unfolding text_mem
text_mem-one p q = ground arith

append-IsDistinct :
    (q : Text) (done : List Text)
    → text_mem q done ≡ false
    → IsDistinct done
    → IsDistinct (done ++ q ∷ [])
unfolding text_mem
append-IsDistinct q [] e h = (refl, tt)
append-IsDistinct q (d ∷ done) e (f, h) =
    let apart = text_mem-append d done (q ∷ []) in
    let one = text_mem-one d q in
    (
      ground (arith, apart, one, e, f, text_eq_iff d q, text_eq_iff q d),
      append-IsDistinct q done (ground (arith, e)) h,
    )

text_mem-add_path :
    (p : Text) (o : Option Text) (done : List Text)
    → text_mem p (add_path o done) ≡ (text_mem p done || is_path p o)
unfolding add_path
text_mem-add_path p none done = or-false (text_mem p done)
text_mem-add_path p (some q) done = elim (Bool-cases (text_mem q done)) [
  | inl e ↦ rw e (ground (arith, text_eq_iff p q, λ (f : p ≡ q). ap (λ w. text_mem w done) f, e))
  | inr e ↦
      rw e (text_mem-append p done (q ∷ []) ∙ ap (λ b. text_mem p done || b) (text_mem-one p q))
]

add_path-IsDistinct :
    (o : Option Text) (done : List Text) → IsDistinct done → IsDistinct (add_path o done)
unfolding add_path
add_path-IsDistinct none done h = h
add_path-IsDistinct (some q) done h = elim (Bool-cases (text_mem q done)) [
  | inl e ↦ rw (e, add_path) h
  | inr e ↦ rw (e, add_path) (append-IsDistinct q done e h)
]

text_mem-add_paths :
    (p : Text) (resources : List Resource) (done : List Text)
    → text_mem p (add_paths resources done) ≡ (text_mem p done || is_path_of_any p resources)
unfolding add_paths is_path_of_any
text_mem-add_paths p [] done = or-false (text_mem p done)
text_mem-add_paths p (r ∷ resources) done =
    text_mem-add_paths p resources _ ∙ rw (text_mem-add_path p (path_of r) done) (ground arith)

add_paths-IsDistinct :
    (resources : List Resource) (done : List Text)
    → IsDistinct done
    → IsDistinct (add_paths resources done)
unfolding add_paths
add_paths-IsDistinct [] done h = h
add_paths-IsDistinct (r ∷ resources) done h =
    add_paths-IsDistinct resources _ (add_path-IsDistinct (path_of r) done h)

-- If the store's sort keeps the records, the store offers a path exactly when it is one of its own or
-- that of a resource, and the paths that it adds for the resources are distinct.
pub perm_paths_lem :
    (sort : List Text → List Text) (resources : List Resource) (p : Text)
    → ((q : Text) (paths : List Text) → text_mem q (sort paths) ≡ text_mem q paths)
    → (text_mem p (perm_paths sort resources)
        ≡ (text_mem p static_paths || is_path_of_any p resources))
      × IsDistinct (add_paths resources [])
unfolding perm_paths
perm_paths_lem sort resources p kept = (
  kept p _
      ∙ text_mem-append p static_paths _
      ∙ ap (λ b. text_mem p static_paths || b) (text_mem-add_paths p resources []),
  add_paths-IsDistinct resources [] tt,
)
