-- ===== src/Parser/Startup/RoundTrip.antt =====
-- A printed start order is read back.
use pve_manager_electrified.Prelude.{
  ◌≡◌, refl, sym, append-nil, ap, ◌∙◌, true, Option, none, some, List, [], ◌∷◌, ◌++◌, arith, All,
  All-append, all,
}
use pve_manager_electrified.Text.{Text, codes, split, join, is_digits, is_digit}
use pve_manager_electrified.Text.Split.{Lacks, Lacks-append, split-join}
use pve_manager_electrified.Parser.{each, each_step}
use pve_manager_electrified.Parser.Startup.{
  Startup, no_startup, startup_option, parse_startup, push_field, print_startup,
}

abbrev pub IsNumber : Option Text → Type 0
IsNumber none = Unit
IsNumber (some v) = is_digits v ≡ true

digit-Lacks : (v : Text) → all is_digit v ≡ true → Lacks b',' v
unfolding is_digit
digit-Lacks [] h = tt
digit-Lacks (c ∷ v) h = (ground arith, digit-Lacks v (ground arith))

digits-Lacks : (v : Text) → is_digits v ≡ true → Lacks b',' v
unfolding is_digits
digits-Lacks v h = digit-Lacks v (ground (arith, h))

module _ (s : Startup) (v : Text) (h : is_digits v ≡ true) where
  startup_option-order : startup_option s (codes "order=" ++ v) ≡ some (record s { order = some v })
  unfolding startup_option
  startup_option-order = rw h

  startup_option-up : startup_option s (codes "up=" ++ v) ≡ some (record s { up = some v })
  unfolding startup_option
  startup_option-up = rw h

  startup_option-down : startup_option s (codes "down=" ++ v) ≡ some (record s { down = some v })
  unfolding startup_option
  startup_option-down = rw h

-- One field that is printed sets itself.
each-push_field :
    (key : Text) (f : Option Text) (with_field : Option Text → Startup) (rest : List Text)
    → IsNumber f
    → ((v : Text)
        → is_digits v ≡ true
        → startup_option (with_field none) (key ++ v) ≡ some (with_field (some v)))
    → each startup_option (with_field none) (push_field key f ++ rest)
      ≡ each startup_option (with_field f) rest
unfolding push_field is_digits
each-push_field key none with_field rest h sets = refl
each-push_field key (some []) with_field rest h sets = cc
each-push_field key (some (c ∷ v)) with_field rest h sets =
    each_step startup_option _ (key ++ c ∷ v) rest (sets (c ∷ v) h)

Lacks-push_field :
    (key : Text) (f : Option Text)
    → Lacks b',' key
    → IsNumber f
    → All (Lacks b',') (push_field key f)
unfolding push_field
Lacks-push_field key none hk h = tt
Lacks-push_field key (some []) hk h = tt
Lacks-push_field key (some (c ∷ v)) hk h =
    (Lacks-append b',' key (c ∷ v) hk (digits-Lacks (c ∷ v) h), tt)

-- The empty text is one blank part, which changes nothing.
each-join :
    (ps : List Text)
    → All (Lacks b',') ps
    → each startup_option no_startup (split b',' (join b',' ps)) ≡ each startup_option no_startup ps
each-join [] h = unfold each split join startup_option in refl
each-join (p ∷ ps) (hp, h) = ap (each startup_option no_startup) (split-join b',' p ps hp h)

-- A start order whose fields, where set, are decimal numbers is printed to a text from which
-- parseStartup gives it back.
pub parse-print_startup :
    (s : Startup)
    → IsNumber s.order
    → IsNumber s.up
    → IsNumber s.down
    → parse_startup (some (print_startup s)) ≡ some s
unfolding parse_startup print_startup
parse-print_startup s ho hu hd =
    each-join _ (
      All-append _ (push_field (codes "order=") s.order) _
        (Lacks-push_field (codes "order=") s.order (omega arith) ho)
        (All-append _ (push_field (codes "up=") s.up) _
          (Lacks-push_field (codes "up=") s.up (omega arith) hu)
          (Lacks-push_field (codes "down=") s.down (omega arith) hd)))
    ∙ each-push_field (codes "order=") s.order (λ f. record no_startup { order = f }) _ ho
        (startup_option-order no_startup)
    ∙ each-push_field (codes "up=") s.up (λ f. record s { up = f; down = none }) _ hu
        (startup_option-up (record s { up = none; down = none }))
    ∙ ap (each startup_option (record s { down = none })) (sym (append-nil _))
    ∙ each-push_field (codes "down=") s.down (λ f. record s { down = f }) [] hd
        (startup_option-down (record s { down = none }))
    ∙ unfold each in refl
