-- ===== src/Executor/Environment.antt =====
-- Which value of a variable a command sees.
use brazier.Base.{
  Text, ◌==◌, ==_iff, ◌≡◌, refl, sym, ◌∙◌, true, false, Option, none, some, List, [], ◌∷◌, ◌++◌,
  contains, arith, if◌then◌else◌, Bool-cases, inl, inr, All, nat_eq, nat_eq_iff, text, cut_prefix,
  map, ◌≢◌,
}
use brazier.Proto.{EnvVar, JobDispatch}
use brazier.Executor.{entry, add_unseen, keys, spec_env, merged}

abbrev pub or_else {ℓ} : {A : Type ℓ} → Option A → Option A → Option A
or_else none o = o
or_else (some a) o = some a

-- The name of a variable: it is not empty, and has no "=" (61).
pub record IsName (k : Text) : Type 0 where
  pub present : k ≢ []
  pub plain : All (λ c. nat_eq c 61 ≡ false) k

-- The value of the variable with this name in an environment of entries "name=value": of several
-- entries for a name, os/exec uses the last.
unfoldable pub value_in : Text → List Text → Option Text
value_in k [] = none
value_in k (e ∷ env) = or_else (value_in k env) (cut_prefix e (k ++ text "="))

unfoldable pub first_value : Text → List EnvVar → Option Text
first_value k [] = none
first_value k (e ∷ vars) = if e.key == k then some e.value else first_value k vars

unfoldable pub last_value : Text → List EnvVar → Option Text
last_value k [] = none
last_value k (e ∷ vars) = or_else (last_value k vars) (if e.key == k then some e.value else none)

pub last_value-append :
    (k : Text) (xs ys : List EnvVar)
    → last_value k (xs ++ ys) ≡ or_else (last_value k ys) (last_value k xs)
unfolding last_value
last_value-append k [] ys = ground arith
last_value-append k (e ∷ xs) ys = ground (arith, last_value-append k xs ys)

last_value-add_unseen :
    (k : Text) (seen : List Text) (vars : List EnvVar)
    → last_value k (add_unseen seen vars) ≡ (if contains k seen then none else first_value k vars)
unfolding last_value add_unseen first_value contains
last_value-add_unseen k seen [] = ground arith
last_value-add_unseen k seen (e ∷ vars) = ground (
  arith,
  last_value-add_unseen k seen vars,
  last_value-add_unseen k (e.key ∷ seen) vars,
  ==_iff e.key k,
  ==_iff k e.key,
)

last_value-keys :
    (k : Text) (vars : List EnvVar) → contains k (keys vars) ≡ false → last_value k vars ≡ none
unfolding last_value contains
last_value-keys k [] h = refl
last_value-keys k (e ∷ vars) h =
    ground (arith, last_value-keys k vars, ==_iff e.key k, ==_iff k e.key)

or_else-last_value :
    (k : Text) (vars : List EnvVar) (o : Option Text)
    → contains k (keys vars) ≡ true
    → or_else (last_value k vars) o ≡ last_value k vars
unfolding last_value contains
or_else-last_value k [] o h = cc
or_else-last_value k (e ∷ vars) o h =
    ground
      (arith, or_else-last_value k vars o, ==_iff e.key k, ==_iff k e.key, last_value-keys k vars)

pub or_else-none : (o : Option Text) → or_else o none ≡ o
or_else-none none = refl
or_else-none (some v) = refl

pub last_value-merged :
    (k : Text) (j : JobDispatch)
    → last_value k (merged j) ≡ or_else (last_value k j.env) (first_value k (spec_env j.spec))
unfolding merged
last_value-merged k j = elim (Bool-cases (contains k (keys j.env))) [
  | inl given ↦
      last_value-append k j.env _
      ∙ rw (last_value-add_unseen k (keys j.env) (spec_env j.spec), given)
          (sym (or_else-last_value k j.env _ given))
  | inr absent ↦
      last_value-append k j.env _
      ∙ rw
          (
            last_value-add_unseen k (keys j.env) (spec_env j.spec),
            absent,
            last_value-keys k j.env absent,
          )
          (or_else-none _)
]

cut_prefix-entry :
    (key v k : Text)
    → All (λ c. nat_eq c 61 ≡ false) key
    → All (λ c. nat_eq c 61 ≡ false) k
    → cut_prefix (key ++ (text "=" ++ v)) (k ++ text "=") ≡ (if key == k then some v else none)
unfolding cut_prefix text ◌==◌
cut_prefix-entry [] v [] h h' = refl
cut_prefix-entry [] v (d ∷ k) h h' = ground (arith, nat_eq_iff 61 d, nat_eq_iff d 61, h'.0)
cut_prefix-entry (c ∷ key) v [] h h' = ground (arith, h.0)
cut_prefix-entry (c ∷ key) v (d ∷ k) h h' = ground (arith, cut_prefix-entry key v k h.1 h'.1)

-- Where no name has a "=", the entries have the values of the variables.
pub value_in-map :
    (k : Text) (vars : List EnvVar)
    → IsName k
    → All (λ e. IsName e.key) vars
    → value_in k (map entry vars) ≡ last_value k vars
unfolding value_in last_value
value_in-map k [] name names = refl
value_in-map k (e ∷ vars) name names =
    rw (value_in-map k vars name names.1, cut_prefix-entry e.key e.value k names.0.plain name.plain)
      refl

pub All-add_unseen :
    (P : EnvVar → Type 0) (seen : List Text) (vars : List EnvVar)
    → All P vars
    → All P (add_unseen seen vars)
unfolding add_unseen
All-add_unseen P seen [] h = tt
All-add_unseen P seen (e ∷ vars) h = elim (Bool-cases (contains e.key seen)) [
  | inl old ↦ rw old (All-add_unseen P seen vars h.1)
  | inr new ↦ rw new (h.0, All-add_unseen P (e.key ∷ seen) vars h.1)
]
