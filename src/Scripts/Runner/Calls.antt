-- ===== src/Scripts/Runner/Calls.antt =====
-- scripts/run-deployment-tests.js: which commands are calls of `docker compose`, for which deployment.
use text.Mathlib.TextLemmas.{append_cancel_left}
use node_red_contrib_bull.Prelude.{
  String, ◌<>◌, ◌≡◌, refl, Bool, true, false, ◌&&◌, List, [], ◌∷◌, ◌++◌, inl, inr, str_eq,
  str_eq_refl, str_eq_iff, Bool-cases, arith, length, ◌≤◌, length-append,
}
use node_red_contrib_bull.Js.Value.{Fields}
use node_red_contrib_bull.Scripts.Shell.{Command, System, Docker, docker_call, compose_args}
use node_red_contrib_bull.Scripts.Runner.{tests_command}

unfoldable pub starts_with : List String → List String → Bool
starts_with [] ys = true
starts_with (x ∷ xs) [] = false
starts_with (x ∷ xs) (y ∷ ys) = str_eq x y && starts_with xs ys

starts_with-append : (p xs ys : List String) → starts_with (p ++ xs) (p ++ ys) ≡ starts_with xs ys
unfolding starts_with
starts_with-append [] xs ys = refl
starts_with-append (s ∷ p) xs ys = rw str_eq_refl (starts_with-append p xs ys)

starts_with-length : (xs ys : List String) → starts_with xs ys ≡ true → length xs ≤ length ys
unfolding starts_with
starts_with-length [] ys found = omega arith
starts_with-length (x ∷ xs) [] found = ground arith
starts_with-length (x ∷ xs) (y ∷ ys) found =
    let rest : starts_with xs ys ≡ true = ground arith in
    omega (arith, starts_with-length xs ys rest)

projects_differ :
    (a b : String)
    → str_eq a b ≡ false
    → str_eq ("node-red-contrib-bullmq" <> "-" <> a) ("node-red-contrib-bullmq" <> "-" <> b) ≡ false
projects_differ a b differ =
    elim (Bool-cases
      (str_eq ("node-red-contrib-bullmq" <> "-" <> a) ("node-red-contrib-bullmq" <> "-" <> b))) [
        | inr apart ↦ apart
        | inl equal ↦
            let same =
              append_cancel_left "-" a b
                (append_cancel_left "node-red-contrib-bullmq" _ _ ((str_eq_iff _ _).0 equal)) in
            absurd (ground (arith, (str_eq_iff a b).1 same, differ))
      ]

module _ (sys : System) (d : Docker) where
  -- A command is a call of `docker compose` for a deployment that starts with a word.
  unfoldable pub is_call : String → String → Command → Bool
  is_call name word c = starts_with (d.leading ++ compose_args sys name (word ∷ [])) c.args

  pub call_own :
      (name word : String) (args : List String) (captured : Bool)
      → is_call name word (docker_call d (compose_args sys name (word ∷ args)) captured) ≡ true
  unfolding is_call compose_args starts_with
  call_own name word args captured =
      rw
        (
          starts_with-append,
          str_eq_refl ("node-red-contrib-bullmq" <> "-" <> name),
          str_eq_refl (sys.path_join ("test" ∷ "deployments" ∷ name ∷ "compose.yml" ∷ [])),
          str_eq_refl word,
        )
        refl

  pub call_other :
      (name other word word' : String) (args : List String) (captured : Bool)
      → str_eq name other ≡ false
      → is_call name word (docker_call d (compose_args sys other (word' ∷ args)) captured) ≡ false
  unfolding is_call compose_args starts_with
  call_other name other word word' args captured differ =
      rw (starts_with-append, projects_differ name other differ) refl

  pub call_tests :
      (name word : String) (env : Fields) → is_call name word (tests_command sys env) ≡ false
  unfolding is_call compose_args
  call_tests name word env = elim (Bool-cases (is_call name word (tests_command sys env))) [
    | inr other ↦ other
    | inl found ↦ absurd (
        omega (
          arith,
          starts_with-length _ _ found,
          length-append d.leading (compose_args sys name (word ∷ [])),
        ))
  ]
