-- ===== src/Resolver/Options/Leak.antt =====
-- What the options of a dict become on the command line.
use Prim.Native.String.{count}
use cxone_flow_buildwork.Prelude.{
  nat_beq, not, ◌&&◌, String, ◌≡◌, refl, ap, Bool, true, false, none, some, List, [], ◌∷◌, ◌++◌,
  contains, arith, if◌then◌else◌, Bool-cases, inl, inr,
}
use cxone_flow_buildwork.Prelude.Dict.{Dict, get, has_key, has_key-eq-false}
use cxone_flow_buildwork.Resolver.Options.{
  Value, forbidden_opts, chosen, emit, is_option, compile, validate_arg,
}

-- each option by itself, with the processor of its own name
unfoldable pub each_by_itself :
    Dict (String → String) → (String → String) → Dict Value → List String
unfolding is_option get
each_by_itself procs identity [] = []
each_by_itself procs identity ((k, value) ∷ rest) =
    let args = each_by_itself procs identity rest in
    if is_option k then emit (chosen (get procs k) identity) k value ++ args else args

-- no option of the dict has a processor
unfoldable pub no_processor : Dict (String → String) → Dict Value → Bool
unfolding has_key
no_processor procs [] = true
no_processor procs ((k, value) ∷ rest) = if has_key procs k then false else no_processor procs rest

-- Where no option has a processor, each option is compiled by itself.
pub compile-plain :
    (procs : Dict (String → String)) (proc : String → String) (opts : Dict Value)
    → no_processor procs opts ≡ true
    → compile procs proc opts ≡ each_by_itself procs proc opts
unfolding compile each_by_itself no_processor
compile-plain procs proc [] h = refl
compile-plain procs proc ((k, value) ∷ rest) h = elim (Bool-cases (has_key procs k)) [
  | inl there ↦ absurd (ground arith)
  | inr lacks ↦ rw (has_key-eq-false procs k lacks) (
      ap (λ (args : List String). if is_option k then emit proc k value ++ args else args)
        (compile-plain procs proc rest (ground arith)))
]

-- The options that follow one with a processor, and have none of their own, are all given to it: an
-- option after `e` or `excludes` gets the exclusions added to its value.
pub processor_leaks :
    (procs : Dict (String → String)) (proc found : String → String) (k : String) (value : Value)
    (rest : Dict Value)
    → get procs k ≡ some found
    → is_option k ≡ true
    → no_processor procs rest ≡ true
    → compile procs proc ((k, value) ∷ rest) ≡ emit found k value ++ each_by_itself procs found rest
unfolding compile
processor_leaks procs proc found k value rest h valid none_there =
    ground (arith, compile-plain procs found rest none_there)

and_false : (b : Bool) → (b && not true) ≡ false
and_false true = refl
and_false false = refl

forbidden-eq-false : (k : String) → contains k forbidden_opts ≡ true → is_option k ≡ false
unfolding is_option validate_arg
forbidden-eq-false k h = rw h (and_false (not (nat_beq (count k) 0)))

-- An option of the forbidden names has no effect: the command line is that of the dict without it,
-- wherever it stands, if its name has no processor, as those that the runner gives have none.
pub forbidden_is_dropped :
    (procs : Dict (String → String)) (proc : String → String) (before later : Dict Value)
    (k : String) (value : Value)
    → contains k forbidden_opts ≡ true
    → get procs k ≡ none
    → compile procs proc (before ++ (k, value) ∷ later) ≡ compile procs proc (before ++ later)
unfolding compile
forbidden_is_dropped procs proc [] later k value forbidden plain =
    rw (forbidden-eq-false k forbidden, plain) refl
forbidden_is_dropped procs proc ((j, other) ∷ before) later k value forbidden plain =
    let proc' = chosen (get procs j) proc in
    ap (λ (args : List String). if is_option j then emit proc' j other ++ args else args)
      (forbidden_is_dropped procs proc' before later k value forbidden plain)
