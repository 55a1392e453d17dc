-- ===== src/Adapters/Ai.antt =====
-- internal/adapters/ai: the providers of analyses. net/http and encoding/json are parameters; the
-- content of an answer is a text of code points. The rank of a hypothesis is what the decoder makes of
-- it: the enforcement of citations numbers the hypotheses again.
pub mod Prompt
pub mod Extract
use valaf.Common.{
  ℕ, zero, suc, ◌+◌, ◌-◌, String, Bool, true, false, Option, none, some, List, [], ◌∷◌, ◌++◌, map,
  eqb, ltb, ◌==◌, if◌then◌else◌,
}
use valaf.Common.Text.{Text, codes, join, trim_right}
use valaf.Common.Effect.{Error, Result, ok, err, message, Eff}
use valaf.Core.Analyze.{
  Observation, Hypothesis, TimelineEntry, AnalysisRequest, AnalysisResult, AiProvider,
}
use valaf.Store.Retrieval.{take}
use valaf.Adapters.Http.{HttpAnswer, unanswered, answered}
use valaf.Adapters.Ai.Prompt.{system_prompt, build_user_prompt}

-- strings.IndexByte, from position `i` on
unfoldable pub index_byte : ℕ → ℕ → Text → Option ℕ
index_byte c i [] = none
index_byte c i (d ∷ t) = let later = index_byte c (suc i) t in if eqb d c then some i else later

abbrev or_else : Option ℕ → Option ℕ → Option ℕ
or_else none b = b
or_else (some a) b = some a

-- strings.LastIndexByte, from position `i` on
unfoldable pub last_index_byte : ℕ → ℕ → Text → Option ℕ
last_index_byte c i [] = none
last_index_byte c i (d ∷ t) =
    or_else (last_index_byte c (suc i) t) (if eqb d c then some i else none)

abbrev pub drop : {A : Type 0} → ℕ → List A → List A
drop zero xs = xs
drop (suc n) [] = []
drop (suc n) (x ∷ xs) = drop n xs

-- `s[start : end+1]`, unless one of the braces is missing or they are in the wrong order
unfoldable pub between : Option ℕ → Option ℕ → Text → Text
between none last s = []
between (some start) none s = []
between (some start) (some end) s =
    if ltb end start then [] else take (suc end - start) (drop start s)

unfoldable pub extract_json : Text → Text
unfolding index_byte last_index_byte between
extract_json s = between (index_byte b'{' 0 s) (last_index_byte b'}' 0 s) s

pub record RawHypothesis : Type 0 where
  pub rank : ℕ
  pub title : String
  pub rationale : String
  pub supporting : List String
  pub contradicting : List String
  pub checks : List String

pub record RawResult : Type 0 where
  pub summary : String
  pub timeline : List TimelineEntry
  pub observations : List (String × List String)
  pub hypotheses : List RawHypothesis
  pub gaps : List String
  pub triage_verdict : String

abbrev pub result_of : RawResult → AnalysisResult
result_of raw = record {
  summary = raw.summary;
  timeline = raw.timeline;
  observations = map (λ o. record { body = o.0; cites = o.1 }) raw.observations;
  hypotheses =
      map
        (λ h. record {
          rank = h.rank;
          title = h.title;
          rationale = h.rationale;
          supporting = h.supporting;
          contradicting = h.contradicting;
          checks = h.checks;
        })
        raw.hypotheses;
  gaps = raw.gaps;
  triage_verdict = raw.triage_verdict;
}

module _ (decode_result : Text → Option RawResult) where
  decoded : Option RawResult → Result AnalysisResult
  decoded none = err (message "decode model JSON")
  decoded (some raw) = ok (result_of raw)

  parse_text : Text → Result AnalysisResult
  unfolding decoded
  parse_text [] = err (message "no JSON object in model response")
  parse_text (c ∷ t) = decoded (decode_result (c ∷ t))

  unfoldable pub parse_result : Text → Result AnalysisResult
  unfolding parse_text extract_json
  parse_result content = parse_text (extract_json content)

-- the payload of a request, without the fields that are constant
pub record ChatRequest : Type 0 where
  pub url : Text
  pub api_key : String
  pub model : String
  pub system : String
  pub user : String

-- openAIResponse, and anthropicResponse with a type and a text for each part of its content
pub record OpenAiResponse : Type 0 where
  pub choices : List Text
  pub error : Option String

pub record AnthropicResponse : Type 0 where
  pub content : List (String × Text)
  pub error : Option String

-- net/http and encoding/json
pub record Api (S : Type 0) : Type 0 where
  pub post : ChatRequest → S → HttpAnswer × S
  pub quote : String → String
  pub bag_json : List (String × String) → String
  pub decode_openai : String → Option OpenAiResponse
  pub decode_anthropic : String → Option AnthropicResponse
  pub decode_result : Text → Option RawResult

-- the loop over the parts: the texts among them
abbrev texts_of : List (String × Text) → List Text
texts_of [] = []
texts_of ((kind, t) ∷ rest) =
    let others = texts_of rest in if kind == "text" then t ∷ others else others

module _ {S : Type 0} (api : Api S) where
  openai_choices : List Text → Result AnalysisResult
  unfolding parse_result
  openai_choices [] = err (message "provider returned no choices")
  openai_choices (t ∷ rest) = parse_result api.decode_result t

  abbrev unless_error : Option String → Result AnalysisResult → Result AnalysisResult
  unless_error none r = r
  unless_error (some msg) r = err (message "provider error")

  openai_body : Option OpenAiResponse → Result AnalysisResult
  unfolding openai_choices
  openai_body none = err (message "decode response")
  openai_body (some out) = unless_error out.error (openai_choices out.choices)

  anthropic_body : Option AnthropicResponse → Result AnalysisResult
  unfolding parse_result join
  anthropic_body none = err (message "decode response")
  anthropic_body (some out) =
      unless_error out.error (parse_result api.decode_result (join [] (texts_of out.content)))

  abbrev read_with : (String → Result AnalysisResult) → HttpAnswer → Result AnalysisResult
  read_with read_body (unanswered msg) = err (message msg)
  read_with read_body (answered code body) =
      if eqb code 200 then read_body body else err (message "http error")

  abbrev chat : Text → String → String → AnalysisRequest → ChatRequest
  unfolding build_user_prompt system_prompt
  chat url api_key model req = record {
    url = url;
    api_key = api_key;
    model = model;
    system = system_prompt;
    user = build_user_prompt api.quote api.bag_json req;
  }

  unfoldable pub openai_analyze : String → String → String → AnalysisRequest → Eff S AnalysisResult
  unfolding openai_body chat trim_right
  openai_analyze base_url api_key model req s =
      let (answer, s') =
        api.post
          (chat (trim_right b'/' (codes base_url) ++ codes "/chat/completions") api_key model req)
          s in
      (read_with (λ body. openai_body (api.decode_openai body)) answer, s')

  unfoldable pub anthropic_analyze :
      String → String → String → AnalysisRequest → Eff S AnalysisResult
  unfolding anthropic_body chat trim_right
  anthropic_analyze base_url api_key model req s =
      let (answer, s') =
        api.post (chat (trim_right b'/' (codes base_url) ++ codes "/v1/messages") api_key model req)
          s in
      (read_with (λ body. anthropic_body (api.decode_anthropic body)) answer, s')

  -- NewOpenAICompat and NewAnthropic
  unfoldable pub openai_compat : String → String → String → AiProvider S
  unfolding openai_analyze
  openai_compat base_url api_key model = record {
    name = "openai_compat";
    model = model;
    analyze = openai_analyze base_url api_key model;
  }

  unfoldable pub anthropic : String → String → String → AiProvider S
  unfolding anthropic_analyze
  anthropic base_url api_key model = record {
    name = "anthropic";
    model = model;
    analyze =
        anthropic_analyze (if base_url == "" then "https://api.anthropic.com" else base_url) api_key
          model;
  }
