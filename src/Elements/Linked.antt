-- ===== src/Elements/Linked.antt =====
-- What `link_pipeline_elements` reports of the links.
use demo_colombia.Base.{
  ℕ, ◌+◌, ◌≡◌, refl, Bool, true, false, List, [], ◌∷◌, none, arith, if◌then◌else◌,
}
use demo_colombia.Text.{Bytes}
use demo_colombia.Gst.{
  M, Call, Reply, History, Env, Outcome, Settings, returns, throws, undefined, link_many, pad_link,
  request_pad_simple, flag, object, ask_flag, pure, ◌>>=◌,
}
use demo_colombia.Pipeline.{Pipeline, Member, sink, queue6, queue7, queue8}
use demo_colombia.Pads.{connect_src_sink_pads}
use demo_colombia.Elements.{enabled, per_branch, rtsp_sink, tcp_sink, udp_branch, enable}
use demo_colombia.Elements.Configure.{required, members, tcp_members, udp_members, check_branch}
use demo_colombia.Elements.Link.{add_elements, chain, link_branch, link_pipeline_elements}

-- 1 for a link that GStreamer refused, and for a requested pad that it did not give.
abbrev pub failed_by : Call → Reply → ℕ
failed_by (link_many l) (flag false) = 1
failed_by (pad_link p q) (flag false) = 1
failed_by (request_pad_simple e n) (object none) = 1
failed_by _ _ = 0

abbrev pub failed : History → ℕ
failed [] = 0
failed ((c, r) ∷ h) = failed_by c r + failed h

-- The value that is returned, if any, goes with the history.
abbrev pub Leaves : {A : Type 0} → (A → History → Type 0) → Outcome A × History → Type 0
Leaves P (returns a, h) = P a h
Leaves P (throws, h) = Unit {0}
Leaves P (undefined, h) = Unit {0}

-- From `n` failures on: none more where the routine reports success, just one more where it does not.
abbrev pub Reports : ℕ → Bool → History → Type 0
Reports n true h = failed h ≡ n
Reports n false h = failed h ≡ n + 1

module _ (env : Env) where
  >>=-Leaves :
      {A B : Type 0} (P : A → History → Type 0) (Q : B → History → Type 0) (m : M A) (f : A → M B)
      (h : History)
      → Leaves P (m env h)
      → ((a : A) (h' : History) → P a h' → Leaves Q (f a env h'))
      → Leaves Q ((m >>= f) env h)
  >>=-Leaves P Q m f h p k = go (m env h) p
    where
      go :
          (r : Outcome _ × History)
          → Leaves P r
          → Leaves Q (elim r.0 [
            | returns a ↦ f a env r.1
            | throws ↦ (throws, r.1)
            | undefined ↦ (undefined, r.1)
          ])
      go (returns a, h') x = k a h' x
      go (throws, h') x = tt
      go (undefined, h') x = tt

  enabled-Leaves :
      (c : Settings) (path : List Bytes) (n : ℕ) (h : History)
      → failed h ≡ n
      → Leaves (λ b h'. failed h' ≡ n) (enabled c path env h)
  unfolding enabled
  enabled-Leaves c path n h e = ground (arith, e)

  required-Reports :
      (m k : M Bool) (n : ℕ) (h : History)
      → Leaves (Reports n) (m env h)
      → ((h' : History) → failed h' ≡ n → Leaves (Reports n) (k env h'))
      → Leaves (Reports n) (required m k env h)
  required-Reports m k n h x y =
      >>=-Leaves (Reports n) (Reports n) m (λ ok. if ok then k else pure false) h x after
    where
      after :
          (ok : Bool) (h' : History)
          → Reports n ok h'
          → Leaves (Reports n) ((if ok then k else pure false) env h')
      after true h' e = y h' e
      after false h' e = e

  link_many-Reports :
      (p : Pipeline) (ms : List Member) (n : ℕ) (h : History)
      → failed h ≡ n
      → Leaves (Reports n) (ask_flag (link_many (members p ms)) env h)
  link_many-Reports p ms n h e = ground (arith, e)

  link_branch-Reports :
      (p : Pipeline) (queue : Member) (rest : List Member) (n : ℕ) (h : History)
      → failed h ≡ n
      → Leaves (Reports n) (link_branch p queue rest env h)
  unfolding link_branch connect_src_sink_pads
  link_branch-Reports p queue rest n h e = ground (arith, e)

  add_elements-Leaves :
      (p : Pipeline) (n : ℕ) (h : History)
      → failed h ≡ n
      → Leaves (λ u h'. failed h' ≡ n) (add_elements p env h)
  unfolding add_elements enabled
  add_elements-Leaves p n h e = ground (arith, e)

  -- A branch that runs only after a success.
  check_branch-Reports :
      (m : M Bool) (n : ℕ) (wanted b : Bool) (h : History)
      → ((h' : History) → failed h' ≡ n → Leaves (Reports n) (m env h'))
      → Reports n b h
      → Leaves (Reports n) ((if wanted then check_branch m b else pure b) env h)
  check_branch-Reports m n true true h k e = k h e
  check_branch-Reports m n true false h k e = e
  check_branch-Reports m n false true h k e = e
  check_branch-Reports m n false false h k e = e

  -- Reading a setting changes nothing.
  enabled-keeps :
      (c : Settings) (path : List Bytes) (n : ℕ) (b : Bool) (h : History)
      → Reports n b h
      → Leaves (λ w h'. Reports n b h') (enabled c path env h)
  unfolding enabled
  enabled-keeps c path n true h e = ground (arith, e)
  enabled-keeps c path n false h e = ground (arith, e)

  module _ (c : Settings) (tcp udp : M Bool) (n : ℕ)
      (t : (h : History) → failed h ≡ n → Leaves (Reports n) (tcp env h))
      (u : (h : History) → failed h ≡ n → Leaves (Reports n) (udp env h)) where
    abbrev second : Bool → M Bool
    second b =
        enabled c (udp_branch enable) >>= λ wanted. if wanted then check_branch udp b else pure b

    second-Reports : (b : Bool) (h : History) → Reports n b h → Leaves (Reports n) (second b env h)
    second-Reports b h e =
        >>=-Leaves (λ w h'. Reports n b h') (Reports n) (enabled c (udp_branch enable))
          (λ wanted. if wanted then check_branch udp b else pure b) h
          (enabled-keeps c (udp_branch enable) n b h e)
          (λ wanted h' e'. check_branch-Reports udp n wanted b h' u e')

    abbrev first : M Bool
    first = enabled c (tcp_sink enable) >>= λ wanted.
        (if wanted then check_branch tcp true else pure true) >>= second

    first-Reports : (h : History) → failed h ≡ n → Leaves (Reports n) (first env h)
    first-Reports h e =
        >>=-Leaves (λ w h'. failed h' ≡ n) (Reports n) (enabled c (tcp_sink enable))
          (λ wanted. (if wanted then check_branch tcp true else pure true) >>= second) h
          (enabled-Leaves c (tcp_sink enable) n h e)
          (λ wanted h' e'.
            >>=-Leaves (Reports n) (Reports n) (if wanted then check_branch tcp true else pure true)
              second h' (check_branch-Reports tcp n wanted true h' t e') second-Reports)

    per_branch-Reports :
        (h : History)
        → failed h ≡ n
        → Leaves (Reports n) (per_branch c (check_branch tcp) (check_branch udp) true env h)
    per_branch-Reports h e =
        >>=-Leaves (λ w h'. failed h' ≡ n) (Reports n) (enabled c (rtsp_sink enable))
          (λ any. if any then first else pure true) h (enabled-Leaves c (rtsp_sink enable) n h e)
          branches
      where
        branches :
            (any : Bool) (h' : History)
            → failed h' ≡ n
            → Leaves (Reports n) ((if any then first else pure true) env h')
        branches true h' e' = first-Reports h' e'
        branches false h' e' = e'

  -- Where it returns, `link_pipeline_elements` reports success if none of its links failed, and failure
  -- right after the first link that GStreamer refused, or the first pad of the tee that it did not give.
  pub link_pipeline_elements-Reports :
      (p : Pipeline) (h : History) → Leaves (Reports (failed h)) (link_pipeline_elements p env h)
  unfolding link_pipeline_elements
  link_pipeline_elements-Reports p h =
      let n = failed h in
      >>=-Leaves (λ w h'. failed h' ≡ n) (Reports n) (add_elements p) (λ _. links) h
        (add_elements-Leaves p n h refl)
        (λ _ h' e.
          required-Reports (ask_flag (link_many (members p chain))) displays n h'
            (link_many-Reports p chain n h' e)
            (λ k e₁.
              required-Reports (link_branch p queue6 (sink ∷ [])) branches n k
                (link_branch-Reports p queue6 (sink ∷ []) n k e₁)
                (per_branch-Reports p.configs (link_branch p queue8 tcp_members)
                  (link_branch p queue7 udp_members) n (link_branch-Reports p queue8 tcp_members n)
                  (link_branch-Reports p queue7 udp_members n))))
    where
      branches : M Bool
      branches =
          per_branch p.configs (check_branch (link_branch p queue8 tcp_members))
            (check_branch (link_branch p queue7 udp_members)) true

      displays : M Bool
      displays = required (link_branch p queue6 (sink ∷ [])) branches

      links : M Bool
      links = required (ask_flag (link_many (members p chain))) displays
