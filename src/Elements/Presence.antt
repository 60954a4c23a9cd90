-- ===== src/Elements/Presence.antt =====
-- The elements that are linked were made.
use demo_colombia.Base.{
  [], ◌∷◌, Bool, true, false, List, ◌≡◌, refl, inl, inr, Bool-cases, some, arith, if◌then◌else◌,
}
use demo_colombia.Base.Int.{ℤ}
use demo_colombia.Text.{Bytes}
use demo_colombia.Gst.{M, Env, History, Settings, pure, ◌>>=◌}
use demo_colombia.Gst.Ensures.{Ensures, >>=-Ensures, Ensures-any, Ensures-map}
use demo_colombia.Source.{all_there}
use demo_colombia.Pipeline.{Pipeline}
use demo_colombia.Elements.{
  create_elements, enabled, is_zero, rtsp_sink, tcp_sink, udp_branch, enable, per_branch,
}
use demo_colombia.Elements.Link.{chain, tcp_chain, udp_chain}
use demo_colombia.Pipeline.{preprocess, queue6, queue7, queue8, sink}
use demo_colombia.Elements.Configure.{
  required, members, main_members, queue_members, tcp_members, udp_members, check_branch,
  check_elements, configure_elements, create_pipeline_elements,
}

-- A branch of the settings is switched on.
abbrev pub IsEnabled : Settings → (List Bytes → List Bytes) → Type 0
IsEnabled c branch = (i : ℤ) × (c.as_int (branch enable) ≡ some i) × (is_zero i ≡ false)

-- The elements that `link_pipeline_elements` adds and links, as the settings ask for them, are there.
pub record ArePresent (p : Pipeline) : Type 0 where
  pub main : all_there (members p chain) ≡ true
  pub preprocessing : all_there (members p (preprocess ∷ [])) ≡ true
  pub display : all_there (members p (queue6 ∷ sink ∷ [])) ≡ true
  pub tcp :
      IsEnabled p.configs rtsp_sink
      → IsEnabled p.configs tcp_sink
      → all_there (members p (queue8 ∷ tcp_chain)) ≡ true
  pub udp :
      IsEnabled p.configs rtsp_sink
      → IsEnabled p.configs udp_branch
      → all_there (members p (queue7 ∷ udp_chain)) ≡ true

-- The elements that are checked, as the branches that the settings ask for.
record AreChecked (p : Pipeline) : Type 0 where
  main : all_there (members p main_members) ≡ true
  queues : all_there (members p queue_members) ≡ true
  tcp :
      IsEnabled p.configs rtsp_sink
      → IsEnabled p.configs tcp_sink
      → all_there (members p tcp_members) ≡ true
  udp :
      IsEnabled p.configs rtsp_sink
      → IsEnabled p.configs udp_branch
      → all_there (members p udp_members) ≡ true

-- What is checked covers what is linked.
AreChecked-ArePresent : (p : Pipeline) → AreChecked p → ArePresent p
AreChecked-ArePresent p v =
    let m = v.main in
    let q = v.queues in
    record {
      main = ground arith;
      preprocessing = ground arith;
      display = ground arith;
      tcp = λ r t. let u = v.tcp r t in ground arith;
      udp = λ r t. let u = v.udp r t in ground arith;
    }

abbrev IfTrue : Type 0 → Bool → Type 0
IfTrue P ok = ok ≡ true → P

required-IfTrue :
    (P : Type 0) (m k : M Bool) (env : Env) (h : History)
    → Ensures (IfTrue P) (m env h).0
    → Ensures (IfTrue P) (required m k env h).0
required-IfTrue P m k env h e =
    >>=-Ensures (IfTrue P) (IfTrue P) (λ ok. if ok then k else pure false) env m h e after
  where
    after :
        (ok : Bool) (h' : History)
        → IfTrue P ok
        → Ensures (IfTrue P) ((if ok then k else pure false) env h').0
    after true h' x =
        Ensures-map (λ _. Unit {0}) (IfTrue P) (k env h').0 (λ _ _ _. x refl)
          (Ensures-any (k env h').0)
    after false h' x = λ e. cc

-- What the checks of the two branches, with the results `t` and `u`, say if they pass.
abbrev Branches : Settings → Bool → Bool → Type 0
Branches c t u =
    (IsEnabled c rtsp_sink → IsEnabled c tcp_sink → t ≡ true)
    × (IsEnabled c rtsp_sink → IsEnabled c udp_branch → u ≡ true)

module _ (c : Settings) (t u : Bool) (env : Env) where
  abbrev OnlyIf : (List Bytes → List Bytes) → Bool → Type 0
  OnlyIf branch b = IsEnabled c branch → b ≡ true

  enabled-OnlyIf :
      (branch : List Bytes → List Bytes) (h : History)
      → Ensures (OnlyIf branch) (enabled c (branch enable) env h).0
  unfolding enabled
  enabled-OnlyIf branch h = ground arith

  abbrev Passed : Bool → Type 0
  Passed ok = IfTrue (Branches c t u) ok

  second_branch :
      (wanted b : Bool) (h : History)
      → (b ≡ true → IsEnabled c tcp_sink → t ≡ true)
      → OnlyIf udp_branch wanted
      → Ensures Passed ((if wanted then check_branch (pure u) b else pure b) env h).0
  second_branch true true h first on = λ e. (λ _ en. first refl en, λ _ _. e)
  second_branch true false h first on = λ e. cc
  second_branch false true h first on = λ e. (λ _ en. first refl en, λ _ en. cc (on en))
  second_branch false false h first on = λ e. cc

  abbrev second : Bool → M Bool
  second b =
      enabled c (udp_branch enable) >>= λ wanted. if wanted then check_branch (pure u) b else pure b

  second-Passed :
      (b : Bool) (h : History)
      → (b ≡ true → IsEnabled c tcp_sink → t ≡ true)
      → Ensures Passed (second b env h).0
  second-Passed b h first =
      >>=-Ensures (OnlyIf udp_branch) Passed
        (λ wanted. if wanted then check_branch (pure u) b else pure b) env
        (enabled c (udp_branch enable)) h (enabled-OnlyIf udp_branch h)
        (λ wanted h' on. second_branch wanted b h' first on)

  first_branch :
      (wanted : Bool) (h : History)
      → OnlyIf tcp_sink wanted
      → Ensures Passed
          (((if wanted then check_branch (pure t) true else pure true) >>= λ b. second b) env h).0
  first_branch true h on = second-Passed t h (λ e _. e)
  first_branch false h on = second-Passed true h (λ e en. cc (on en))

  abbrev first : M Bool
  first = enabled c (tcp_sink enable) >>= λ wanted.
      (if wanted then check_branch (pure t) true else pure true) >>= λ b. second b

  both_branches :
      (any : Bool) (h : History)
      → OnlyIf rtsp_sink any
      → Ensures Passed ((if any then first else pure true) env h).0
  both_branches true h on =
      >>=-Ensures (OnlyIf tcp_sink) Passed
        (λ wanted. (if wanted then check_branch (pure t) true else pure true) >>= λ b. second b) env
        (enabled c (tcp_sink enable)) h (enabled-OnlyIf tcp_sink h) first_branch
  both_branches false h on = λ _. (λ en _. cc (on en), λ en _. cc (on en))

  -- The branches that the settings switch on were checked.
  check_branches :
      (h : History)
      → Ensures Passed (per_branch c (check_branch (pure t)) (check_branch (pure u)) true env h).0
  check_branches h =
      >>=-Ensures (OnlyIf rtsp_sink) Passed (λ any. if any then first else pure true) env
        (enabled c (rtsp_sink enable)) h (enabled-OnlyIf rtsp_sink h) both_branches

check_elements-ArePresent :
    (p : Pipeline) (env : Env) (h : History)
    → Ensures (IfTrue (ArePresent p)) (check_elements p env h).0
unfolding check_elements
check_elements-ArePresent p env h = elim (Bool-cases (all_there (members p main_members))) [
  | inr missing ↦ rw missing (λ e. cc)
  | inl main ↦ elim (Bool-cases (all_there (members p queue_members))) [
    | inr missing ↦ rw (main, missing) (λ e. cc)
    | inl queues ↦
        let t = all_there (members p tcp_members) in
        let u = all_there (members p udp_members) in
        rw (main, queues)
          (Ensures-map (IfTrue (Branches p.configs t u)) (IfTrue (ArePresent p))
            (per_branch p.configs (check_branch (pure t)) (check_branch (pure u)) true env h).0
            (λ ok x e.
              AreChecked-ArePresent p
                (record { main = main; queues = queues; tcp = (x e).0; udp = (x e).1 }))
            (check_branches p.configs t u env h))
  ]
]

-- Whatever the libraries answer: if `create_pipeline_elements` reports success, none of the pointers that
-- `link_pipeline_elements` adds and links afterwards is NULL: those of the main chain, of the display
-- and of each branch that the settings switch on.
pub create_pipeline_elements-ArePresent :
    (p : Pipeline) (env : Env) (h : History)
    → Ensures (λ r. r.1 ≡ true → ArePresent r.0) (create_pipeline_elements p env h).0
unfolding create_pipeline_elements
create_pipeline_elements-ArePresent p env h =
    >>=-Ensures (λ _. Unit {0}) (λ r. r.1 ≡ true → ArePresent r.0)
      (λ p'. required (check_elements p') (configure_elements p') >>= λ ok. pure (p', ok)) env
      (create_elements p) h (Ensures-any (create_elements p env h).0)
      (λ p' h' _.
        >>=-Ensures (IfTrue (ArePresent p')) (λ r. r.1 ≡ true → ArePresent r.0)
          (λ ok. pure (p', ok)) env (required (check_elements p') (configure_elements p')) h'
          (required-IfTrue (ArePresent p') (check_elements p') (configure_elements p') env h'
            (check_elements-ArePresent p' env h'))
          (λ ok h'' x. x))
