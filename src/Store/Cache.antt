-- ===== src/Store/Cache.antt =====
-- The cache of node records against the records, over every order of loads and queries. A load clears
-- the cache when it begins; while it builds its records, calculate_hostcpu and
-- calculate_hostmem_usage of www/manager6/Utils.js already ask for nodes.
use pve_manager_electrified.Prelude.{
  ◌≡◌, refl, ap, ◌∙◌, ◌⊎◌, true, false, Option, none, some, List, [], ◌∷◌, arith, Bool-cases, inl,
  inr,
}
use pve_manager_electrified.Text.{Text, text_eq, text_mem}
use pve_manager_electrified.Text.Equality.{text_eq_iff}
use pve_manager_electrified.Object.{lookup, put, put_own, proto_setter, prototype_names}
use pve_manager_electrified.Object.Laws.{lookup-put_own}
use pve_manager_electrified.Store.{
  Resource, Store, Cached, own, inherited, get_node_by_id, cached_or, cache_found, clear_cache,
  node_record,
}

-- The names that were asked for since the cache was cleared, the newest first, each with the records
-- that the store had then.
abbrev pub History : Type 0
History = List (Text × List Resource)

-- What happens to the store: a load begins (`beforeload`, which clears the cache), a load ends with
-- new records, and a node is asked for, at any time.
pub data Step : Store → History → Store → History → Type 0 where
  begin_load :
      (s : Store) (since : History) → Step s since (record (clear_cache s) { loading = true }) []
  end_load :
      (s : Store) (since : History) (rs : List Resource)
      → s.loading ≡ true
      → Step s since (record s { records = rs; loading = false }) since
  ask :
      (s : Store) (since : History) (id : Text)
      → Step s since (get_node_by_id id s).0 ((id, s.records) ∷ since)

pub data Reach (s : Store) (past : History) : Store → History → Type 0 where
  here : Reach s past s past
  next :
      {t u : Store} {at_t at_u : History}
      → Reach s past t at_t
      → Step t at_t u at_u
      → Reach s past u at_u

-- The node was asked for when the records had this one for it.
pub WasRecord : Text → Resource → History → Type 0
WasRecord id r [] = ⊥
WasRecord id r ((k, rs) ∷ since) = ((id ≡ k) × (node_record id rs ≡ some r)) ⊎ WasRecord id r since

-- A cached record was the one of its node when the node was asked for; its name is not inherited.
abbrev IsRecent : Store → History → Type 0
IsRecent s since =
    (id : Text) (r : Resource)
    → lookup id s.node_cache ≡ some r
    → (text_mem id prototype_names ≡ false) × WasRecord id r since

lookup-put_cases :
    (j k : Text) (v w : Resource) (o : List (Text × Resource))
    → lookup j (put k v o) ≡ some w
    → ((j ≡ k) × (v ≡ w)) ⊎ (lookup j o ≡ some w)
unfolding put
lookup-put_cases j k v w o e = elim (Bool-cases (text_eq k proto_setter)) [
  | inl p ↦ inr (rw (p, put) at e)
  | inr p ↦
      let is_own : lookup j (put_own k v o) ≡ some w = rw (p, put) at e in
      let law = lookup-put_own k j v o in
      elim (Bool-cases (text_eq j k)) [
        | inl q ↦ inl ((text_eq_iff j k).0 q, ground (arith, is_own, law, q))
        | inr q ↦ inr (ground (arith, is_own, law, q))
      ]
]

-- A further query takes no record away.
later :
    (s : Store) (since : History) (k : Text) (rs : List Resource)
    → IsRecent s since
    → IsRecent s ((k, rs) ∷ since)
later s since k rs h id r e = let old = h id r e in (old.0, unfold WasRecord in inr old.1)

cache_found-IsRecent :
    (s : Store) (since : History) (id : Text) (o : Option Resource)
    → text_mem id prototype_names ≡ false
    → node_record id s.records ≡ o
    → IsRecent s since
    → IsRecent (cache_found id o s).0 ((id, s.records) ∷ since)
unfolding cache_found
cache_found-IsRecent s since id none plain e h = later s since id s.records h
cache_found-IsRecent s since id (some r) plain e h = λ j w q.
    elim (lookup-put_cases j id r w s.node_cache q) [
      | inl (k, v) ↦ (
        ap (λ i. text_mem i prototype_names) k ∙ plain,
        unfold WasRecord in inl (k, ap (λ i. node_record i s.records) k ∙ e ∙ ap some v),
      )
      | inr old ↦ later s since id s.records h j w old
    ]

cached_or-IsRecent :
    (s : Store) (since : History) (id : Text) (o : Option Resource)
    → IsRecent s since
    → IsRecent (cached_or id o s).0 ((id, s.records) ∷ since)
unfolding cached_or
cached_or-IsRecent s since id (some r) h = later s since id s.records h
cached_or-IsRecent s since id none h = elim (Bool-cases (text_mem id prototype_names)) [
  | inl p ↦ rw p (later s since id s.records h)
  | inr p ↦ rw p (cache_found-IsRecent s since id (node_record id s.records) p refl h)
]

nothing_cached : (id : Text) (r : Resource) → lookup {V = Resource} id [] ≡ some r → ⊥
unfolding lookup
nothing_cached id r e = cc

Step-IsRecent :
    {s t : Store} {past since : History} → Step s past t since → IsRecent s past → IsRecent t since
Step-IsRecent (begin_load s since) h =
    λ id r e. absurd (nothing_cached id r (unfold clear_cache in e))
Step-IsRecent (end_load s since rs l) h = h
Step-IsRecent (ask s since id) h =
    unfold get_node_by_id in cached_or-IsRecent s since id (lookup id s.node_cache) h

Reach-IsRecent :
    {s : Store} {past : History} {t : Store} {since : History}
    → IsRecent s past
    → Reach s past t since
    → IsRecent t since
Reach-IsRecent h here = h
Reach-IsRecent h (next r st) = Step-IsRecent st (Reach-IsRecent h r)

-- What getNodeById may answer.
pub Answers : Text → Store → History → Option Cached → Type 0
Answers id s since (some (own r)) =
    (text_mem id prototype_names ≡ false)
    × ((node_record id s.records ≡ some r) ⊎ WasRecord id r since)
Answers id s since (some inherited) = text_mem id prototype_names ≡ true
Answers id s since none = (text_mem id prototype_names ≡ false) × (node_record id s.records ≡ none)

cache_found-Answers :
    (s : Store) (since : History) (id : Text) (o : Option Resource)
    → text_mem id prototype_names ≡ false
    → node_record id s.records ≡ o
    → Answers id s since (cache_found id o s).1
unfolding cache_found Answers
cache_found-Answers s since id none plain e = (plain, e)
cache_found-Answers s since id (some r) plain e = (plain, inl e)

cached_or-Answers :
    (s : Store) (since : History) (id : Text) (o : Option Resource)
    → lookup id s.node_cache ≡ o
    → IsRecent s since
    → Answers id s since (cached_or id o s).1
unfolding cached_or
cached_or-Answers s since id (some r) e h =
    let was = h id r e in unfold Answers in (was.0, inr was.1)
cached_or-Answers s since id none e h = elim (Bool-cases (text_mem id prototype_names)) [
  | inl p ↦ rw p (unfold Answers in p)
  | inr p ↦ rw p (cache_found-Answers s since id (node_record id s.records) p refl)
]

-- Starting from an empty cache, after any sequence of loads and queries, queries during a load
-- included, getNodeById answers for a node the record that the present records have for it, or one
-- that they had when this node was asked for since the last beginning of a load, and nothing only if
-- the present records have none. For a name that all objects inherit, and for no other, it answers
-- the inherited property.
pub get_node_by_id-Reach :
    (rs : List Resource) (s : Store) (since : History) (id : Text)
    → Reach (record { records = rs; node_cache = []; loading = false }) [] s since
    → Answers id s since (get_node_by_id id s).1
unfolding get_node_by_id
get_node_by_id-Reach rs s since id r =
    cached_or-Answers s since id (lookup id s.node_cache) refl
      (Reach-IsRecent (λ j w e. absurd (nothing_cached j w e)) r)
