-- ===== src/Meta/RateLimit/Worst.antt =====
-- What parseRateLimitHeaders (src/lib/meta/rateLimit.ts) reports as the worst percentage.
use saral.Base.{
  ℕ, ◌≤◌, ◌≡◌, refl, ◌⊎◌, inl, inr, Option, none, some, List, [], ◌∷◌, String, arith, All,
}
use saral.Json.{Json}
use saral.Meta.RateLimit.Usage.{
  RateLimitUsage, JsonParse, safe_json_parse, candidates_of, pct_of, or_zero, Totals, start_totals,
  count_in, summarise, usage_of, parse_rate_limit_headers,
}

abbrev pub dimension : String → Json → ℕ
dimension key c = or_zero (pct_of c key)

-- No figure of the candidate is above `w`.
abbrev pub Below : ℕ → Json → Type 0
Below w c =
    (dimension "call_count" c ≤ w)
    × (dimension "total_cputime" c ≤ w)
    × (dimension "total_time" c ≤ w)

-- Some figure of some candidate is `w`.
abbrev pub Attained : ℕ → List Json → Type 0
Attained w [] = ⊥
Attained w (c ∷ cs) =
    (dimension "call_count" c ≡ w)
    ⊎ (dimension "total_cputime" c ≡ w)
    ⊎ (dimension "total_time" c ≡ w)
    ⊎ Attained w cs

summarise-grows : (cs : List Json) (t : Totals) → t.worst ≤ (summarise cs t).worst
unfolding summarise count_in
summarise-grows [] t = omega arith
summarise-grows (c ∷ cs) t = omega (arith, summarise-grows cs (count_in c t))

summarise-Below : (cs : List Json) (t : Totals) → All (Below (summarise cs t).worst) cs
unfolding summarise count_in
summarise-Below [] t = tt
summarise-Below (c ∷ cs) t =
    (omega (arith, summarise-grows cs (count_in c t)), summarise-Below cs (count_in c t))

summarise-Attained :
    (cs : List Json) (t : Totals)
    → ((summarise cs t).worst ≡ t.worst) ⊎ Attained (summarise cs t).worst cs
unfolding summarise count_in
summarise-Attained [] t = inl refl
summarise-Attained (c ∷ cs) t = ground (arith, summarise-Attained cs (count_in c t))

-- Without a candidate in either header there is no reading. Otherwise the worst percentage is the
-- largest of the three figures over all candidates: none is above it, and it is one of them unless
-- it is zero.
pub parse_rate_limit_headers-worst :
    (parse : JsonParse) (x_app_usage x_buc_usage : Option String)
    → let cs =
        candidates_of (safe_json_parse parse x_app_usage) (safe_json_parse parse x_buc_usage) in
      let reading = parse_rate_limit_headers parse x_app_usage x_buc_usage in
      ((cs ≡ []) × (reading ≡ none))
      ⊎ ((u : RateLimitUsage) × (reading ≡ some u)
          × All (Below u.worst_pct) cs
          × ((u.worst_pct ≡ 0) ⊎ Attained u.worst_pct cs))
unfolding parse_rate_limit_headers
parse_rate_limit_headers-worst parse x_app_usage x_buc_usage =
    reads (_, _)
      (candidates_of (safe_json_parse parse x_app_usage) (safe_json_parse parse x_buc_usage))
  where
    reads :
        (raw : Option Json × Option Json) (cs : List Json)
        → ((cs ≡ []) × (usage_of raw cs ≡ none))
          ⊎ ((u : RateLimitUsage) × (usage_of raw cs ≡ some u)
              × All (Below u.worst_pct) cs
              × ((u.worst_pct ≡ 0) ⊎ Attained u.worst_pct cs))
    reads raw [] = inl (refl, refl)
    reads raw (c ∷ cs) =
        inr
          (_, refl, summarise-Below (c ∷ cs) start_totals, summarise-Attained (c ∷ cs) start_totals)
