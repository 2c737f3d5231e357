-- ===== src/Api/Layers.antt =====
-- api/middleware.rs: the metrics of requests, and api/router.rs: the layers around the routes. Tracing,
-- which stands between them, only logs.
use testable_rust_architectu.Base.{
  ℕ, ◌-◌, String, Bool, false, ◌≡◌, refl, sym, ap, subst, ◌∙◌, Option, none, some, List, [], ◌∷◌,
  ◌++◌, concat, All, if◌then◌else◌,
}
use mathlib.Core.List.{append_assoc, append-nil}
use testable_rust_architectu.Domain.Items.{Time}
use testable_rust_architectu.Api.ClientIp.{Response}
use testable_rust_architectu.Api.Router.{Request, plain}

-- What is handed to the recorder of metrics: one more request under its labels (method, path and
-- status), and the time that a request took, under its method and path.
pub data Sample : Type 0 where
  counted : String → String → ℕ → Sample
  timed : String → String → Time → Sample

-- A state, and the samples so far.
pub record Observed (S : Type 0) : Type 0 where
  pub state : S
  pub samples : List Sample

-- `uri().path()`.
abbrev join : List String → String
join [] = ""
join (a ∷ path) = concat ("/" ∷ a ∷ join path ∷ [])

abbrev pub uri_path : List String → String
uri_path [] = "/"
uri_path (a ∷ path) = join (a ∷ path)

-- `TimeoutLayer`: tower decides whether the thirty seconds are over before the answer is there, and
-- then drops the handler, in the state that `cut` gives.
unfoldable pub timeout_layer : {S : Type 0} → (S → Option S) → (S → Response × S) → S → Response × S
timeout_layer cut next s = elim (cut s) [ none ↦ next s | some s' ↦ (plain 408 "", s') ]

-- `instant` is `Instant::now()`.
unfoldable pub metrics_middleware :
    {S : Type 0} → (S → Time) → Request → (S → Response × S) → Observed S → Response × Observed S
metrics_middleware instant request next o =
    let method = request.http.method in
    let route = uri_path request.path in
    let start = instant o.state in
    let (response, s') = next o.state in
    let elapsed = instant s' - start in
    (
      response,
      record {
        state = s';
        samples =
            o.samples ++ (counted method route response.status ∷ timed method route elapsed ∷ []);
      },
    )

-- The routes of either router within its layers; the documentation is merged in outside of them.
module _ {S : Type 0} (inner : Request → S → Response × S) (instant : S → Time)
    (cut : Request → S → Option S) (documented : List String → Bool) where
  unfoldable pub with_layers : Request → Observed S → Response × Observed S
  unfolding metrics_middleware timeout_layer
  with_layers request o =
      if documented request.path
      then (let (response, s') = inner request o.state in (response, record o { state = s' }))
      else metrics_middleware instant request (timeout_layer (cut request) (inner request)) o

  -- A list of requests, one after the other.
  abbrev pub observe_all : List Request → Observed S → List Response × Observed S
  observe_all [] o = ([], o)
  observe_all (r ∷ rs) o =
      let (a, o') = with_layers r o in let (as', o'') = observe_all rs o' in (a ∷ as', o'')

-- The same within the layer of the timeout alone.
abbrev pub answer_all :
    {S : Type 0}
    → (Request → S → Response × S)
    → (Request → S → Option S)
    → List Request
    → S
    → List Response × S
answer_all inner cut [] s = ([], s)
answer_all inner cut (r ∷ rs) s =
    let (a, s') = timeout_layer (cut r) (inner r) s in
    let (as', s'') = answer_all inner cut rs s' in (a ∷ as', s'')

-- The labels of the counter for requests and their answers.
abbrev pub labels : List Request → List Response → List (String × String × ℕ)
labels [] as' = []
labels (r ∷ rs) [] = []
labels (r ∷ rs) (a ∷ as') = (r.http.method, uri_path r.path, a.status) ∷ labels rs as'

abbrev pub counts : List Sample → List (String × String × ℕ)
counts [] = []
counts (counted m p n ∷ samples) = (m, p, n) ∷ counts samples
counts (timed m p t ∷ samples) = counts samples

counts-append : (xs ys : List Sample) → counts (xs ++ ys) ≡ counts xs ++ counts ys
counts-append [] ys = refl
counts-append (counted m p n ∷ xs) ys = ap (λ l. (m, p, n) ∷ l) (counts-append xs ys)
counts-append (timed m p t ∷ xs) ys = counts-append xs ys

module _ {S : Type 0} (inner : Request → S → Response × S) (instant : S → Time)
    (cut : Request → S → Option S) (documented : List String → Bool) where
  abbrev pub IsObserved : List Request → Observed S → List Response × Observed S → Type 0
  IsObserved rs o (answers, o') =
      let (plain_answers, s') = answer_all inner cut rs o.state in
      (answers ≡ plain_answers)
      × (o'.state ≡ s')
      × (counts o'.samples ≡ counts o.samples ++ labels rs plain_answers)

  -- A request within the layers, outside of the documentation.
  abbrev observed : Request → Observed S → Response × Observed S
  observed r o =
      let (a, s') = timeout_layer (cut r) (inner r) o.state in
      let elapsed = instant s' - instant o.state in
      let path = uri_path r.path in
      (
        a,
        record {
          state = s';
          samples =
              o.samples
              ++ (counted r.http.method path a.status ∷ timed r.http.method path elapsed ∷ []);
        },
      )

  with_layers-observed :
      (r : Request) (o : Observed S)
      → documented r.path ≡ false
      → with_layers inner instant cut documented r o ≡ observed r o
  unfolding with_layers
  with_layers-observed r o h = rw h refl

  -- Outside the documentation, the layer of metrics changes no answer and no state, and it counts each
  -- request once, in turn: under its method, its whole path and the status of its answer, which is
  -- 408 where the time is over.
  pub observe_all-IsObserved :
      (rs : List Request) (o : Observed S)
      → All (λ r. documented r.path ≡ false) rs
      → IsObserved rs o (observe_all inner instant cut documented rs o)
  observe_all-IsObserved [] o h = (refl, refl, sym (append-nil (counts o.samples)))
  observe_all-IsObserved (r ∷ rs) o (h, t) =
      let (a, o') = observed r o in
      let (answers, state, samples) = observe_all-IsObserved rs o' t in
      let (as', s'') = answer_all inner cut rs o'.state in
      let label : String × String × ℕ = (r.http.method, uri_path r.path, a.status) in
      let rest = labels rs as' in
      let After = λ (p : Response × Observed S).
        let (as'', o'') = observe_all inner instant cut documented rs p.1 in
        ((p.0 ∷ as'') ≡ a ∷ as')
        × (o''.state ≡ s'')
        × (counts o''.samples ≡ counts o.samples ++ (label ∷ rest)) in
      subst After (sym (with_layers-observed r o h)) (
        ap (λ l. a ∷ l) answers,
        state,
        samples
            ∙ (ap (λ l. l ++ rest) (counts-append o.samples _)
                ∙ append_assoc (counts o.samples) (label ∷ []) rest),
      )
