-- ===== src/Fixtures/Tidy.antt =====
-- The temporary directories of the builder.
use opa_py_wasm.Base.{◌≡◌, refl, ◌∙◌, String, Bool, true, false, Option, none, some, List, [], ◌∷◌}
use opa_py_wasm.Errors.{Kind, exit, other}
use opa_py_wasm.Result.{Result, ok, raised, Exec, lift, throw, raise_if}
use opa_py_wasm.Result.Keeps.{Keeps, Keeps-pure, Keeps-bind, Keeps-if}
use opa_py_wasm.Types.{Bytes}
use opa_py_wasm.Fixtures.{
  Shell, found_or_exit, opa_bin, opa_version, write_custom_capabilities, capability_options,
  extracted, build_in, with_temp, in_temp, known, build_one, build_all, main,
}

abbrev pub IsOpened : {S : Type 0} → (S → List String) → S → Result String → S → Type 0
IsOpened temps s (ok tmp) t = temps t ≡ tmp ∷ temps s
IsOpened temps s (raised e) t = temps t ≡ temps s

-- What is documented of the outside: a temporary directory is there from its opening to its closing,
-- and nothing else touches one.
pub record TempLaws (sh : Shell) : Type 0 where
  pub temps : sh.State → List String
  pub open_law : (s : sh.State) → IsOpened temps s (sh.open_temp s).0 (sh.open_temp s).1
  pub close_law :
      (tmp : String) (s : sh.State) (rest : List String)
      → temps s ≡ tmp ∷ rest
      → temps (sh.close_temp tmp s) ≡ rest
  pub run_law : (command : List String) (s : sh.State) → temps (sh.run command s).1 ≡ temps s
  pub dirs_law : (path : String) (s : sh.State) → temps (sh.make_dirs path s).1 ≡ temps s
  pub text_law : (path text : String) (s : sh.State) → temps (sh.write_text path text s).1 ≡ temps s
  pub bytes_law :
      (path : String) (raw : Bytes) (s : sh.State) → temps (sh.write_bytes path raw s).1 ≡ temps s
  pub members_law : (path : String) (s : sh.State) → temps (sh.members path s).1 ≡ temps s

module _ (sh : Shell) (laws : TempLaws sh) (rest : List String) where
  abbrev Same : sh.State → Type 0
  Same s = laws.temps s ≡ rest

  module _ {A : Type 0} where
    outside-Same :
        (m : Exec sh.State A) → ((s : sh.State) → laws.temps (m s).1 ≡ laws.temps s) → Keeps Same m
    outside-Same m law = record { at = λ s h. law s ∙ h }

    lift-Same : (r : Result A) → Keeps Same (lift r)
    unfolding lift
    lift-Same r = record { at = λ s h. h }

    throw-Same : (k : Kind) → Keeps Same (throw {A = A} k)
    unfolding throw
    throw-Same k = record { at = λ s h. h }

    found-Same : (o : Option A) → Keeps Same (found_or_exit o)
    found-Same none = throw-Same exit
    found-Same (some a) = Keeps-pure a

  raise_if-Same : (b : Bool) (k : Kind) → Keeps Same (raise_if b k)
  unfolding raise_if
  raise_if-Same true k = record { at = λ s h. h }
  raise_if-Same false k = record { at = λ s h. h }

  opa_version-Same : (opa : String) → Keeps Same (opa_version sh opa)
  unfolding opa_version
  opa_version-Same opa =
      Keeps-bind _ _ (outside-Same _ (laws.run_law _))
        λ out. Keeps-if _ _ _ (Keeps-pure _) (lift-Same _)

  capabilities-Same :
      (opa name dest : String) → Keeps Same (write_custom_capabilities sh opa name dest)
  unfolding write_custom_capabilities
  capabilities-Same opa name dest = Keeps-bind _ _ (outside-Same _ (laws.run_law _)) λ _.
      Keeps-bind _ _ (lift-Same _) λ _. Keeps-bind _ _ (lift-Same _) λ _.
        Keeps-bind _ _ (lift-Same _)
          λ _. Keeps-bind _ _ (outside-Same _ (laws.text_law _ _)) λ _. Keeps-pure _

  options-Same :
      (opa tmp : String) (o : Option String) → Keeps Same (capability_options sh opa tmp o)
  options-Same opa tmp none = Keeps-pure _
  options-Same opa tmp (some name) = Keeps-bind _ _ (capabilities-Same opa name _) λ _. Keeps-pure _

  extracted-Same : (content : Option Bytes) → Keeps Same (extracted sh content)
  extracted-Same none = throw-Same other
  extracted-Same (some raw) = Keeps-pure raw

  build_in-Same :
      (opa stem : String) (entrypoints : List String) (rego out_wasm tmp : String)
      → Keeps Same (build_in sh opa stem entrypoints rego out_wasm tmp)
  unfolding build_in
  build_in-Same opa stem entrypoints rego out_wasm tmp = Keeps-bind _ _ (options-Same _ _ _) λ _.
      Keeps-bind _ _ (outside-Same _ (laws.run_law _)) λ _.
        Keeps-bind _ _ (outside-Same _ (laws.members_law _)) λ _.
          Keeps-bind _ _ (found-Same _)
            λ _. Keeps-bind _ _ (extracted-Same _) λ _. outside-Same _ (laws.bytes_law _ _)

  known-Same : (o : Option (List String)) → Keeps Same (known sh o)
  known-Same none = throw-Same other
  known-Same (some entrypoints) = Keeps-pure entrypoints

module _ (sh : Shell) (laws : TempLaws sh) where
  with_temp-tidy :
      (body : String → Exec sh.State (Unit {0}))
      → ((rest : List String) (tmp : String) → Keeps (Same sh laws rest) (body tmp))
      → (s t : sh.State) (r : Result String) → IsOpened laws.temps s r t
      → laws.temps (with_temp sh r body t).1 ≡ laws.temps s
  with_temp-tidy body kept s t (raised e) h = h
  with_temp-tidy body kept s t (ok tmp) h =
      laws.close_law tmp (body tmp t).1 (laws.temps s) ((kept (tmp ∷ laws.temps s) tmp).at t h)

  module _ (rego_dir wasm_dir : String) where
    in_temp-Same :
        (rest : List String) (body : String → Exec sh.State (Unit {0}))
        → ((rest : List String) (tmp : String) → Keeps (Same sh laws rest) (body tmp))
        → Keeps (Same sh laws rest) (in_temp sh body)
    unfolding in_temp
    in_temp-Same rest body kept = record {
      at = λ s h.
          let (r, t) = sh.open_temp s in with_temp-tidy body kept s t r (laws.open_law s) ∙ h;
    }

    build_one-Same :
        (rest : List String) (opa stem : String)
        → Keeps (Same sh laws rest) (build_one sh rego_dir wasm_dir opa stem)
    unfolding build_one
    build_one-Same rest opa stem = record {
      at = λ s h.
          (Keeps-bind _ _ (raise_if-Same sh laws rest _ exit) λ _.
              Keeps-bind _ _ (known-Same sh laws rest _) λ _.
                Keeps-bind _ _ (outside-Same sh laws rest _ (laws.dirs_law _)) λ _.
                  in_temp-Same rest _ λ old tmp. build_in-Same sh laws old opa stem _ _ _ tmp).at
            s h;
    }

    build_all-Same :
        (rest : List String) (opa : String) (stems : List String)
        → Keeps (Same sh laws rest) (build_all sh rego_dir wasm_dir opa stems)
    unfolding build_all
    build_all-Same rest opa [] = Keeps-pure _
    build_all-Same rest opa (stem ∷ stems) =
        Keeps-bind _ _ (build_one-Same rest opa stem) λ _. build_all-Same rest opa stems

    -- Where nothing but the opening and the closing touches a temporary directory: however the builder
    -- ends, it leaves the temporary directories that it found.
    pub main-tidy :
        (args : List String) (s : sh.State)
        → laws.temps (main sh rego_dir wasm_dir args s).1 ≡ laws.temps s
    unfolding main opa_bin
    main-tidy args s =
        (Keeps-bind _ _ (found-Same sh laws (laws.temps s) _) λ opa.
            Keeps-bind _ _ (opa_version-Same sh laws (laws.temps s) opa) λ _.
              Keeps-bind _ _ (raise_if-Same sh laws (laws.temps s) _ exit)
                λ _. build_all-Same (laws.temps s) opa _).at
          s refl
