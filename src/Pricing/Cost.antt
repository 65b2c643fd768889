-- ===== src/Pricing/Cost.antt =====
-- internal/core/pricing.go: `costLines`, `CalculateCost` and `CostBreakdown`.
use diffractllm.Base.{
  ◌≡◌, refl, Bool, String, List, [], ◌∷◌, ℤ, pos, not, ◌&&◌, ltb_ℤ, sub64, is_set, arith,
  if◌then◌else◌, ◌||◌,
}
use diffractllm.Pricing.Fields.{
  annotation_cost_per_page, cache_creation_input_audio_token_cost,
  cache_read_input_audio_token_cost, cache_read_input_token_cost, citation_cost_per_token,
  code_interpreter_cost_per_session, cost_per_request, input_cost_per_audio_token,
  input_cost_per_audio_token_priority, input_cost_per_image_token, input_cost_per_pixel,
  input_cost_per_query, input_cost_per_request, input_cost_per_second,
  input_cost_per_token_cache_hit, input_dbu_cost_per_token, ocr_cost_per_credit, ocr_cost_per_page,
  output_cost_per_audio_token, output_cost_per_image_token, output_cost_per_pixel,
  output_cost_per_reasoning_token, output_cost_per_second, output_cost_per_unit,
  output_cost_per_video_token, output_dbu_cost_per_token,
}
use diffractllm.Pricing.Float.{Float64, FloatLaws}
use diffractllm.Pricing.Merge.{Pricing}
use diffractllm.Pricing.Usage.{Usage}
use diffractllm.Pricing.Rates.{rate, input_rate, output_rate, cache_read_rate, cache_creation_rate}
use diffractllm.Pricing.UnitRates.{
  audio_input_token_rate, audio_second_rate, input_character_rate, output_character_rate,
  input_image_rate, output_image_rate, input_video_second_rate_for_clip, output_video_second_rate,
  output_video_rate, search_query_rate,
}

-- The arguments of one call of the callback `add`.
pub record Charge (F : Type 0) : Type 0 where
  pub item : String
  pub unit : String
  pub qty : F
  pub unit_cost : F

pub record CostLine (F : Type 0) : Type 0 where
  pub item : String
  pub quantity : F
  pub unit : String
  pub unit_cost : F
  pub cost_usd : F

abbrev charge : {F : Type 0} → String → String → F → F → Charge F
charge item unit qty unit_cost = record {
  item = item;
  unit = unit;
  qty = qty;
  unit_cost = unit_cost;
}

-- `if n < 0 { n = 0 }`
abbrev pub floor_zero : ℤ → ℤ
floor_zero n = if ltb_ℤ n (pos 0) then pos 0 else n

-- `if b { n -= m }`
abbrev pub less_if : Bool → ℤ → ℤ → ℤ
less_if b n m = if b then sub64 n m else n

module _ {F : Type 0} where
  unfoldable pub uncached_input : Pricing F → Usage F → ℤ
  uncached_input p u =
      let without_cached =
        less_if
          (is_set (p cache_read_input_token_cost) || is_set (p input_cost_per_token_cache_hit))
          u.input_tokens u.cached_input_tokens in
      let without_audio =
        less_if
          (is_set (p input_cost_per_audio_token) || is_set (p input_cost_per_audio_token_priority))
          without_cached u.input_audio_tokens in
      floor_zero
        (less_if (is_set (p input_cost_per_image_token)) without_audio u.input_image_tokens)

  unfoldable pub plain_output : Pricing F → Usage F → ℤ
  plain_output p u =
      let without_reasoning =
        less_if (is_set (p output_cost_per_reasoning_token)) u.output_tokens u.reasoning_tokens in
      let without_audio =
        less_if (is_set (p output_cost_per_audio_token)) without_reasoning u.output_audio_tokens in
      floor_zero
        (less_if (is_set (p output_cost_per_image_token)) without_audio u.output_image_tokens)

module _ {F : Type 0} (fl : Float64 F) where
  -- The calls of `add`, in order.
  unfoldable pub cost_lines : Pricing F → Usage F → List (Charge F)
  unfolding uncached_input plain_output
  cost_lines p u =
      charge "input" "token" (fl.of_int64 (uncached_input p u))
        (input_rate fl p u.input_tokens u.tier)
      ∷ charge "output" "token" (fl.of_int64 (plain_output p u))
          (output_rate fl p u.input_tokens u.tier)
      ∷ charge "input_cache_read" "token" (fl.of_int64 u.cached_input_tokens)
          (cache_read_rate fl p u.input_tokens u.tier)
      ∷ charge "input_cache_write" "token" (fl.of_int64 u.cache_creation_tokens)
          (cache_creation_rate fl p u.input_tokens u.tier u.cache_long_ttl)
      ∷ charge "reasoning" "token" (fl.of_int64 u.reasoning_tokens)
          (rate fl (p output_cost_per_reasoning_token ∷ []))
      ∷ charge "citation" "token" (fl.of_int64 u.citation_tokens)
          (rate fl (p citation_cost_per_token ∷ []))
      ∷ charge "input_audio" "token" (fl.of_int64 u.input_audio_tokens)
          (audio_input_token_rate fl p u.tier)
      ∷ charge "output_audio" "token" (fl.of_int64 u.output_audio_tokens)
          (rate fl (p output_cost_per_audio_token ∷ []))
      ∷ charge "input_audio_cache_read" "token" (fl.of_int64 u.cached_audio_tokens)
          (rate fl (p cache_read_input_audio_token_cost ∷ []))
      ∷ charge "input_audio_cache_write" "token" (fl.of_int64 u.cache_creation_audio_tokens)
          (rate fl (p cache_creation_input_audio_token_cost ∷ []))
      ∷ charge "input_audio" "second" u.input_audio_seconds (audio_second_rate fl p u.input_tokens)
      ∷ charge "input" "character" (fl.of_int64 u.input_characters)
          (input_character_rate fl p u.input_tokens)
      ∷ charge "output" "character" (fl.of_int64 u.output_characters)
          (output_character_rate fl p u.input_tokens)
      ∷ charge "input_image" "image" (fl.of_int64 u.input_images)
          (input_image_rate fl p u.input_tokens)
      ∷ charge "output_image" "image" (fl.of_int64 u.output_images)
          (output_image_rate fl p u.image_quality u.output_pixels)
      ∷ charge "input_image" "token" (fl.of_int64 u.input_image_tokens)
          (rate fl (p input_cost_per_image_token ∷ []))
      ∷ charge "output_image" "token" (fl.of_int64 u.output_image_tokens)
          (rate fl (p output_cost_per_image_token ∷ []))
      ∷ charge "generated" "pixel" (fl.of_int64 u.generated_pixels)
          (rate fl (p input_cost_per_pixel ∷ []))
      ∷ charge "output" "pixel" (fl.of_int64 u.output_pixels)
          (rate fl (p output_cost_per_pixel ∷ []))
      ∷ charge "input_video" "second" u.input_video_seconds
          (input_video_second_rate_for_clip fl p u.input_video_seconds u.input_tokens)
      ∷ charge "output_video" "second" u.output_video_seconds
          (output_video_second_rate fl p u.video_resolution u.video_has_audio u.video_from_video)
      ∷ charge "output_video" "token" (fl.of_int64 u.output_video_tokens)
          (rate fl (p output_cost_per_video_token ∷ []))
      ∷ charge "output_video" "video" (fl.of_int64 u.output_videos)
          (output_video_rate fl p u.video_resolution u.output_video_seconds)
      ∷ charge "input" "second" u.input_seconds (rate fl (p input_cost_per_second ∷ []))
      ∷ charge "output" "second" u.output_seconds (rate fl (p output_cost_per_second ∷ []))
      ∷ charge "query" "query" (fl.of_int64 u.queries) (rate fl (p input_cost_per_query ∷ []))
      ∷ charge "search_query" "query" (fl.of_int64 u.search_queries)
          (search_query_rate fl p u.search_context_size)
      ∷ charge "request" "request" (fl.of_int64 u.requests) (rate fl (p cost_per_request ∷ []))
      ∷ charge "input_request" "request" (fl.of_int64 u.input_requests)
          (rate fl (p input_cost_per_request ∷ []))
      ∷ charge "ocr" "page" (fl.of_int64 u.pages) (rate fl (p ocr_cost_per_page ∷ []))
      ∷ charge "ocr" "credit" (fl.of_int64 u.ocr_credits) (rate fl (p ocr_cost_per_credit ∷ []))
      ∷ charge "annotation" "page" (fl.of_int64 u.annotation_pages)
          (rate fl (p annotation_cost_per_page ∷ []))
      ∷ charge "code_interpreter" "session" (fl.of_int64 u.code_sessions)
          (rate fl (p code_interpreter_cost_per_session ∷ []))
      ∷ charge "input" "dbu" (fl.of_int64 u.input_dbus) (rate fl (p input_dbu_cost_per_token ∷ []))
      ∷ charge "output" "dbu" (fl.of_int64 u.output_dbus)
          (rate fl (p output_dbu_cost_per_token ∷ []))
      ∷ charge "unit" "unit" (fl.of_int64 u.units) (rate fl (p output_cost_per_unit ∷ []))
      ∷ []

  sum_charges : F → List (Charge F) → F
  sum_charges total [] = total
  sum_charges total (c ∷ cs) = sum_charges (fl.add total (fl.mul c.qty c.unit_cost)) cs

  unfoldable pub calculate_cost : Pricing F → Usage F → F
  unfolding sum_charges cost_lines
  calculate_cost p u = sum_charges fl.zero (cost_lines p u)

  cost_line : Charge F → CostLine F
  cost_line c = record {
    item = c.item;
    quantity = c.qty;
    unit = c.unit;
    unit_cost = c.unit_cost;
    cost_usd = fl.mul c.qty c.unit_cost;
  }

  billed : List (Charge F) → List (CostLine F)
  unfolding cost_line
  billed [] = []
  billed (c ∷ cs) =
      if not (fl.is_zero c.qty) && not (fl.is_zero c.unit_cost)
      then cost_line c ∷ billed cs
      else billed cs

  unfoldable pub cost_breakdown : Pricing F → Usage F → List (CostLine F)
  unfolding billed cost_lines
  cost_breakdown p u = billed (cost_lines p u)

  -- The sum of the costs that a breakdown shows, from the first line to the last.
  abbrev pub sum_costs : F → List (CostLine F) → F
  sum_costs total [] = total
  sum_costs total (l ∷ ls) = sum_costs (fl.add total l.cost_usd) ls

  module _ (laws : FloatLaws fl) where
    sum_charges-billed :
        (total : F) (cs : List (Charge F)) → sum_charges total cs ≡ sum_costs total (billed cs)
    unfolding sum_charges billed cost_line
    sum_charges-billed total [] = refl
    sum_charges-billed total (c ∷ cs) = ground (
      arith,
      sum_charges-billed total cs,
      sum_charges-billed (fl.add total (fl.mul c.qty c.unit_cost)) cs,
      laws.add-zero total (fl.mul c.qty c.unit_cost),
      laws.zero-mul c.qty c.unit_cost,
      laws.mul-zero c.qty c.unit_cost,
    )

    -- The cost of a request is the sum of the lines of its breakdown, added from first to last, where
    -- the laws of finite amounts hold.
    pub calculate_cost-cost_breakdown :
        (p : Pricing F) (u : Usage F) → calculate_cost p u ≡ sum_costs fl.zero (cost_breakdown p u)
    unfolding calculate_cost cost_breakdown
    calculate_cost-cost_breakdown p u = sum_charges-billed fl.zero (cost_lines p u)
