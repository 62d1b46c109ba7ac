-- ===== src/Critic/Closed.antt =====
-- The check fails closed: what a PASS rests on, and what every other response leads to.
use multimodal_rag.Prelude.{
  ◌≡◌, ◌≢◌, refl, ap, ◌∙◌, List, true, Option, none, some, arith, Bool-cases, inl, inr,
}
use multimodal_rag.Prelude.Text.{Text, text, text_eq, text_eq→eq}
use multimodal_rag.Json
use multimodal_rag.Json.{Json, Fields, null, bool, num, str, arr, obj}
use multimodal_rag.Errors.{app, http, value_error, other}
use multimodal_rag.Exec.{Result, ok, raised}
use multimodal_rag.Reranker.{Ranked}
use multimodal_rag.Critic.{
  Verdict, Reading, read, unparseable, broken, read_result, read_value, read_response,
  strip_json_fences, CriticLlm, critic_message, conclude, judge, failed_closed, check_groundedness,
}

read_result-passed :
    (r claims : Option Json) (v : Verdict)
    → read_result r claims ≡ read v
    → v.passed ≡ true
    → r ≡ some (str (text "PASS"))
read_result-passed none claims v h p = cc
read_result-passed (some null) claims v h p = cc
read_result-passed (some (bool b)) claims v h p = cc
read_result-passed (some (num s)) claims v h p = cc
read_result-passed (some (arr xs)) claims v h p = cc
read_result-passed (some (obj fs)) claims v h p = cc
read_result-passed (some (str s)) claims v h p = elim (Bool-cases (text_eq s (text "PASS"))) [
  | inl e ↦ rw (text_eq→eq s (text "PASS") e) refl
  | inr e ↦ absurd (ground arith)
]

read_value-passed :
    (j : Option Json) (v : Verdict)
    → read_value j ≡ read v
    → v.passed ≡ true
    → (fs : Fields) × (j ≡ some (obj fs)) × (Json.get (text "result") fs ≡ some (str (text "PASS")))
read_value-passed none v h p = cc
read_value-passed (some null) v h p = cc
read_value-passed (some (bool b)) v h p = cc
read_value-passed (some (num s)) v h p = cc
read_value-passed (some (str s)) v h p = cc
read_value-passed (some (arr xs)) v h p = cc
read_value-passed (some (obj fs)) v h p = (
  fs,
  refl,
  read_result-passed (Json.get (text "result") fs) (Json.get (text "unsupported_claims") fs) v h p,
)

conclude-passed : (r : Reading) (v : Verdict) → conclude r ≡ ok v → v.passed ≡ true → r ≡ read v
conclude-passed (read x) v h p = cc
conclude-passed unparseable v h p = ground arith
conclude-passed broken v h p = cc

other_result :
    (r claims : Option Json)
    → r ≢ some (str (text "PASS"))
    → r ≢ some (str (text "FAIL"))
    → read_result r claims ≡ unparseable
other_result (some (str s)) claims np nf =
    ground (arith, text_eq→eq s (text "PASS"), text_eq→eq s (text "FAIL"))
other_result none claims np nf = refl
other_result (some null) claims np nf = refl
other_result (some (bool b)) claims np nf = refl
other_result (some (num s)) claims np nf = refl
other_result (some (arr xs)) claims np nf = refl
other_result (some (obj fs)) claims np nf = refl

module _ {W F : Type 0} (loads : Text → Option Json) (llm : CriticLlm W) (answer : Text)
    (chunks_used : List (Ranked F)) (w : W) where
  -- A verdict of PASS is never made up: the critic's model answered, and its answer, stripped of
  -- fences, is a JSON object whose `result` is the text PASS.
  pub check_groundedness-passed :
      (v : Verdict) (t : W)
      → check_groundedness loads llm answer chunks_used w ≡ (ok v, t)
      → v.passed ≡ true
      → (raw : Text) × (fs : Fields) × (llm (critic_message answer chunks_used) w
          ≡ (ok (some raw), t))
        × (loads (strip_json_fences raw) ≡ some (obj fs))
        × (Json.get (text "result") fs ≡ some (str (text "PASS")))
  unfolding check_groundedness read_response
  check_groundedness-passed v t h p = inverted (llm (critic_message answer chunks_used) w) refl h
    where
      closed : ◌≡◌ {A = Result Verdict} (ok failed_closed) (ok v) → ⊥
      closed g = cc (p)

      inverted :
          (r : Result (Option Text) × W)
          → llm (critic_message answer chunks_used) w ≡ r
          → judge loads r ≡ (ok v, t)
          → (raw : Text) × (fs : Fields) × (llm (critic_message answer chunks_used) w
              ≡ (ok (some raw), t))
            × (loads (strip_json_fences raw) ≡ some (obj fs))
            × (Json.get (text "result") fs ≡ some (str (text "PASS")))
      inverted (raised value_error, u) q g = absurd (closed (ap (λ x. x.0) g))
      inverted (raised (app e), u) q g = cc
      inverted (raised (http n m), u) q g = cc
      inverted (raised other, u) q g = cc
      inverted (ok none, u) q g = cc
      inverted (ok (some raw), u) q g =
          let (fs, parsed, passed) =
            read_value-passed (loads (strip_json_fences raw)) v
              (conclude-passed (read_value (loads (strip_json_fences raw))) v (ap (λ x. x.0) g) p)
              p in
          (raw, fs, q ∙ ap (λ x. (ok (some raw), x)) (ap (λ x. x.1) g), parsed, passed)
