-- ===== src/Tests/RouterRuns.antt =====
-- The router over two candidates, of which the cheap one takes no images.
use codex_shim.Prelude.{
  All, map, ◌≡◌, refl, true, false, none, some, List, [], ◌∷◌, codes, arith, text_eq,
}
use codex_shim.Prelude.Dict.{get}
use codex_shim.Json.{Json, obj, str, int, pos, field, end}
use codex_shim.Router.{RouterCandidate, RouterConfig}
use codex_shim.Router.Task.{has_images}
use codex_shim.Router.Scores.{Scored, Scores, scored, pick_candidate, score_of, first_best}
use codex_shim.Router.Scores.Best.{IsChosen, Rates, pick_candidate-IsChosen}
use codex_shim.Router.Auto.{Surroundings, resolve_auto}
use codex_shim.Router.Auto.Soundness.{IsSound, Answers, resolve_auto-Answers}

abbrev cheap_model : RouterCandidate
cheap_model = record { slug = codes "small"; cost = 1; card = []; supports_images = false }

abbrev dear_model : RouterCandidate
dear_model = record { slug = codes "large"; cost = 9; card = []; supports_images = true }

abbrev two_models : List RouterCandidate
two_models = cheap_model ∷ dear_model ∷ []

abbrev scores : Scores
scores = (codes "small", 900000) ∷ (codes "large", 800000) ∷ []

pick_candidate-IsChosen_example :
    (all : List Scored) × (map (λ (x : Scored). x.0) all ≡ two_models)
    × All (λ (x : Scored). Rates scores true x) all
    × IsChosen 700000 all (pick_candidate scores two_models 700000 true)
pick_candidate-IsChosen_example = pick_candidate-IsChosen scores two_models 700000 true

pick_for_text : (pick_candidate scores two_models 700000 false).slug ≡ some (codes "small")
unfolding pick_candidate scored score_of get first_best text_eq
pick_for_text = refl

pick_for_image : (pick_candidate scores two_models 700000 true).slug ≡ some (codes "large")
unfolding pick_candidate scored score_of get first_best text_eq
pick_for_image = refl

abbrev env : Surroundings
env = record {
  py_str = λ v. [];
  hash = λ t. 0;
  loads = λ t.
      some (obj (field (codes "scores") (obj (field (codes "small") (int (pos 900000)) end)) end));
  float_of = λ v. elim v [ int n ↦ some n | _ ↦ none ];
  classify = some (λ signal candidates. some (codes "{}"));
}

abbrev config : RouterConfig
config = record {
  enabled = true;
  slug = codes "auto";
  classifier = some (codes "small");
  threshold = 700000;
  default_slug = some (codes "large");
  cache = true;
  candidates = two_models;
}

abbrev body : Json
body = obj (field (codes "input") (str (codes "hello")) end)

empty_cache_IsSound : IsSound two_models []
unfolding get
empty_cache_IsSound = record { bounded = omega arith; routable = λ key slug e. cc }

resolve_auto-Answers_example :
    Answers two_models (has_images body) (resolve_auto env config two_models body [])
resolve_auto-Answers_example =
    resolve_auto-Answers env config cheap_model dear_model [] body [] (omega arith)
      empty_cache_IsSound
