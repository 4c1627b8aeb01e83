-- ===== src/Parser/Cpu/RoundTrip.antt =====
-- A printed processor is read back, and what happens to a second type.
use pve_manager_electrified.Prelude.{
  ◌≡◌, refl, sym, ap, ◌∙◌, true, false, some, List, [], ◌∷◌, ◌++◌, arith, All, map, All-imp, ◌⊎◌,
  inl, inr, ◌||◌, all, ◌==◌,
}
use pve_manager_electrified.Text.{
  Text, codes, text_eq, split, join, is_blank, is_word, nonempty, text_mem, is_lower, is_digit,
  is_space,
}
use pve_manager_electrified.Text.Equality.{text_eq_iff}
use pve_manager_electrified.Text.Split.{
  Lacks, Lacks-append, split-join, cut-append, cut_of_Lacks, is_blank-append,
}
use pve_manager_electrified.Object.{lookup, put, prototype_names, is_index}
use pve_manager_electrified.Object.Laws.{
  Absent, HasDistinctKeys, IsOrdinary, put_of_Absent, entries_of_ordinary,
}
use pve_manager_electrified.Parser.{each, each_step, each_one, render}
use pve_manager_electrified.Parser.Options.{
  add_options, printed, add_options-join, is_defined_of_Absent, each-leading, append-join,
  lookup-printed, All-printed, HasDistinctKeys-printed, Absent-printed_skipped,
}
use pve_manager_electrified.Parser.Drive.Names.{settable_of_own, nonempty_of_not_blank}
use pve_manager_electrified.Parser.Cpu.{
  is_cpu_key, cpu_part, cpu_option, need_cputype, join_cpu, parse_qemu_cpu, is_cputype,
  print_qemu_cpu,
}

-- An option that a parsed processor can hold.
pub record IsCpuOption (e : Text × Text) : Type 0 where
  pub name : is_cpu_key e.0 ≡ true
  pub own : text_mem e.0 prototype_names ≡ false
  pub value : is_word e.1 ≡ true
  pub comma : Lacks b',' e.1

-- A type that stands without `=`.
pub record IsBare (p : Text) : Type 0 where
  pub filled : is_blank p ≡ false
  pub comma : Lacks b',' p
  pub equals : Lacks b'=' p

letters-Lacks :
    (k : Text)
    → all (λ c. is_lower c || c == b'_' || c == b'-') k ≡ true
    → Lacks b'=' k × Lacks b',' k
unfolding is_lower
letters-Lacks [] h = (tt, tt)
letters-Lacks (c ∷ k) h =
    let rest = letters-Lacks k (ground arith) in ((ground arith, rest.0), (ground arith, rest.1))

is_cpu_key-Lacks : (k : Text) → is_cpu_key k ≡ true → Lacks b'=' k × Lacks b',' k
unfolding is_cpu_key
is_cpu_key-Lacks k h = letters-Lacks k (ground (arith, h))

is_cpu_key-not_blank : (k : Text) → is_cpu_key k ≡ true → is_blank k ≡ false
unfolding is_cpu_key is_blank is_lower
is_cpu_key-not_blank [] h = cc
is_cpu_key-not_blank (c ∷ k) h = ground arith

key-IsOrdinary : (e : Text × Text) → is_cpu_key e.0 ≡ true → IsOrdinary e
unfolding is_index is_digit is_cpu_key is_lower
key-IsOrdinary ([], v) h = cc
key-IsOrdinary (c ∷ k, v) h = ground arith

cpu_part-good :
    (res : List (Text × Text)) (k v : Text)
    → IsCpuOption (k, v)
    → Absent k res
    → cpu_part res (k, some v) ≡ some (res ++ (k, v) ∷ [])
unfolding cpu_part
cpu_part-good res k v g a =
    rw (g.name, g.value, is_defined_of_Absent k res a g.own)
      (ap some (put_of_Absent k v res (settable_of_own k g.own) a))

cpu_option-render :
    (res : List (Text × Text)) (e : Text × Text)
    → IsCpuOption e
    → Absent e.0 res
    → cpu_option res (render e) ≡ some (res ++ e ∷ [])
unfolding cpu_option is_blank
cpu_option-render res (k, v) g a =
    rw
      (
        is_blank-append k (b'=' ∷ v) (is_cpu_key-not_blank k g.name),
        cut-append b'=' k v (is_cpu_key-Lacks k g.name).0,
      )
      (cpu_part-good res k v g a)

cpu_option-first : (p : Text) → IsBare p → cpu_option [] p ≡ some ((codes "cputype", p) ∷ [])
unfolding cpu_option put
cpu_option-first p b =
    let filled : all is_space p ≡ false = unfold is_blank in b.filled in
    rw (filled, cut_of_Lacks b'=' p b.equals)

-- A second part without `=` is no error: it replaces the type.
cpu_option-again :
    (p q : Text)
    → IsBare q
    → cpu_option ((codes "cputype", p) ∷ []) q ≡ some ((codes "cputype", q) ∷ [])
unfolding cpu_option put text_eq
cpu_option-again p q b =
    let filled : all is_space q ≡ false = unfold is_blank in b.filled in
    rw (filled, cut_of_Lacks b'=' q b.equals)

parse_qemu_cpu-join :
    (p : Text) (ps : List Text)
    → nonempty p ≡ true
    → parse_qemu_cpu (some (join b',' (p ∷ ps)))
      ≡ need_cputype (each cpu_option [] (split b',' (join b',' (p ∷ ps))))
unfolding parse_qemu_cpu join
parse_qemu_cpu-join [] ps h = cc
parse_qemu_cpu-join (c ∷ p) [] h = refl
parse_qemu_cpu-join (c ∷ p) (q ∷ ps) h = refl

need_cputype-first :
    (p : Text) (es : List (Text × Text))
    → nonempty p ≡ true
    → need_cputype (some ((codes "cputype", p) ∷ es)) ≡ some ((codes "cputype", p) ∷ es)
unfolding need_cputype
need_cputype-first p es h = rw h

-- parseQemuCpu accepts two types that are given without a key, and returns the second, for any two
-- that are not blank and hold no `,` and no `=`.
pub parse_qemu_cpu-twice :
    (p q : Text)
    → IsBare p
    → IsBare q
    → parse_qemu_cpu (some (join b',' (p ∷ q ∷ []))) ≡ some ((codes "cputype", q) ∷ [])
parse_qemu_cpu-twice p q a b =
    parse_qemu_cpu-join p (q ∷ []) (nonempty_of_not_blank p a.filled)
    ∙ ap (λ ps. need_cputype (each cpu_option [] ps))
        (split-join b',' p (q ∷ []) a.comma (b.comma, tt))
    ∙ ap need_cputype (
        each_step cpu_option [] p (q ∷ []) (cpu_option-first p a)
        ∙ each_one cpu_option _ q (cpu_option-again p q b))
    ∙ need_cputype-first q [] (nonempty_of_not_blank q b.filled)

-- An entry of a processor: its type, or an option.
abbrev pub IsCpuEntry : Text × Text → Type 0
IsCpuEntry e = (is_cputype e.0 ≡ true) ⊎ IsCpuOption e

entry-IsOrdinary : (e : Text × Text) → IsCpuEntry e → IsOrdinary e
unfolding is_cputype
entry-IsOrdinary (k, v) (inr g) = key-IsOrdinary (k, v) g.name
entry-IsOrdinary (k, v) (inl p) =
    rw ((text_eq_iff k (codes "cputype")).0 p)
      (key-IsOrdinary (codes "cputype", v) (unfold is_cpu_key in refl))

Lacks-render : (e : Text × Text) → IsCpuOption e → Lacks b',' (render e)
Lacks-render e g = Lacks-append b',' e.0 _ (is_cpu_key-Lacks e.0 g.name).1 (omega arith, g.comma)

Absent-cputype :
    (f : Text) (es : List (Text × Text))
    → Absent (codes "cputype") es
    → All (λ e. Absent e.0 ((codes "cputype", f) ∷ [])) es
Absent-cputype f es h = All-imp (λ e n. (λ q. n (sym q), tt)) es h

-- Reading a leading type and printed options.
parse-leading :
    (f : Text) (es : List (Text × Text))
    → IsBare f
    → All IsCpuOption es
    → HasDistinctKeys es
    → Absent (codes "cputype") es
    → parse_qemu_cpu (some (join b',' (f ∷ map render es))) ≡ some ((codes "cputype", f) ∷ es)
parse-leading f es b h d n =
    let full = nonempty_of_not_blank f b.filled in
    parse_qemu_cpu-join f (map render es) full
    ∙ ap need_cputype (
        each-leading cpu_option IsCpuOption cpu_option-render [] ((codes "cputype", f) ∷ []) f es
          (cpu_option-first f b) b.comma Lacks-render h d (Absent-cputype f es n))
    ∙ need_cputype-first f es full

join_cpu-set : (f s : Text) → nonempty f ≡ true → join_cpu (some f) (some s) ≡ some (f ++ s)
unfolding join_cpu
join_cpu-set [] s h = cc
join_cpu-set (c ∷ f) s h = refl

print_qemu_cpu-join :
    (cpu : List (Text × Text)) (f : Text)
    → lookup (codes "cputype") cpu ≡ some f
    → nonempty f ≡ true
    → All IsOrdinary cpu
    → print_qemu_cpu cpu ≡ some (join b',' (f ∷ map render (printed is_cputype cpu)))
unfolding print_qemu_cpu
print_qemu_cpu-join cpu f hf full h =
    ap (λ e. join_cpu (lookup (codes "cputype") cpu) (add_options is_cputype (some []) e))
      (entries_of_ordinary cpu h)
    ∙ ap (λ t. join_cpu t (add_options is_cputype (some []) cpu)) hf
    ∙ ap (join_cpu (some f)) (add_options-join is_cputype [] cpu)
    ∙ join_cpu-set f _ full
    ∙ ap some (append-join f _)

lookup-typed :
    (cpu : List (Text × Text)) (f k : Text)
    → lookup (codes "cputype") cpu ≡ some f
    → lookup k ((codes "cputype", f) ∷ printed is_cputype cpu) ≡ lookup k cpu
unfolding is_cputype lookup
lookup-typed cpu f k hf = ground (
  arith,
  lookup-printed is_cputype k cpu,
  text_eq_iff k (codes "cputype"),
  λ (e : k ≡ codes "cputype"). ap (λ j. lookup j cpu) e ∙ hf,
)

-- A processor is printed to a text from which parseQemuCpu gives a processor in which every key reads
-- as before, if its type is not blank and holds no `,` and no `=`, the value of every other property
-- is a word without commas, the key of each has the form that the parser asks for (`a` to `z`, `_`
-- and `-`, and not empty) and is no name that every object inherits, and the keys are distinct.
pub parse-print_qemu_cpu :
    (cpu : List (Text × Text)) (f : Text)
    → lookup (codes "cputype") cpu ≡ some f
    → IsBare f
    → All IsCpuEntry cpu
    → HasDistinctKeys cpu
    → (text : Text) × (print_qemu_cpu cpu ≡ some text)
      × (out : List (Text × Text)) × (parse_qemu_cpu (some text) ≡ some out)
      × ((k : Text) → lookup k out ≡ lookup k cpu)
parse-print_qemu_cpu cpu f hf b h d = (
  join b',' (f ∷ map render (printed is_cputype cpu)),
  print_qemu_cpu-join cpu f hf (nonempty_of_not_blank f b.filled) (All-imp entry-IsOrdinary cpu h),
  (codes "cputype", f) ∷ printed is_cputype cpu,
  parse-leading f _ b (All-printed IsCpuOption is_cputype cpu h)
      (HasDistinctKeys-printed is_cputype cpu d)
      (Absent-printed_skipped (codes "cputype") is_cputype cpu (unfold is_cputype in refl)),
  λ k. lookup-typed cpu f k hf,
)
