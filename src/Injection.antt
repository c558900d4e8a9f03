-- ===== src/Injection.antt =====
-- services/prompt_injection.rs: the patterns, `analyze` and `injection_context`.
use deko.Prelude.{
  String, ◌<>◌, Bool, true, false, Option, none, some, List, [], ◌∷◌, ◌++◌, map, leb, ℕ, unwrap_or,
  if◌then◌else◌,
}
use deko.Prelude.Text.{join}
use deko.Models.{RiskLevel, low, medium, high, critical}
use deko.Platform.{Platform}

pub data InjectionSeverity : Type 0 where
  severity_low severity_medium severity_high severity_critical : InjectionSeverity

-- `Debug`, which serde writes as well
unfoldable pub show_severity : InjectionSeverity → String
show_severity severity_low = "Low"
show_severity severity_medium = "Medium"
show_severity severity_high = "High"
show_severity severity_critical = "Critical"

-- The derived `Ord`.
abbrev pub severity_rank : InjectionSeverity → ℕ
severity_rank severity_low = 0
severity_rank severity_medium = 1
severity_rank severity_high = 2
severity_rank severity_critical = 3

abbrev pub max_severity : InjectionSeverity → InjectionSeverity → InjectionSeverity
max_severity a b = if leb (severity_rank a) (severity_rank b) then b else a

abbrev pub is_critical : InjectionSeverity → Bool
is_critical severity_critical = true
is_critical _ = false

pub record MatchedPattern : Type 0 where
  pub name : String
  pub severity : InjectionSeverity
  pub match_text : String

pub record InjectionResult : Type 0 where
  pub detected : Bool
  pub patterns : List MatchedPattern
  pub risk_level : RiskLevel

pub record InjectionPattern : Type 0 where
  pub name : String
  pub pattern : String
  pub severity : InjectionSeverity

abbrev pattern_of : String → String → InjectionSeverity → InjectionPattern
pattern_of name pattern severity = record { name = name; pattern = pattern; severity = severity }

abbrev pub injection_patterns : List InjectionPattern
injection_patterns =
    pattern_of "instruction_override"
      "(?i)ignore\\s+(all\\s+)?(previous|above|prior)\\s+(instructions|directives|commands|rules|prompts)"
      severity_critical
    ∷ pattern_of "instruction_forget"
        "(?i)forget\\s+(all\\s+)?(previous|above|prior)\\s+(instructions|directives|commands|rules|prompts)"
        severity_critical
    ∷ pattern_of "instruction_disregard"
        "(?i)disregard\\s+(all\\s+)?(previous|above|prior)\\s+(instructions|directives|commands|rules|prompts)"
        severity_critical
    ∷ pattern_of "role_switch" "(?i)you\\s+are\\s+now\\s+" severity_critical
    ∷ pattern_of "role_pretend" "(?i)pretend\\s+(you\\s+are|to\\s+be)\\s+" severity_critical
    ∷ pattern_of "system_prompt_leak"
        "(?i)(reveal|show|print|output|display|dump)\\s+(your\\s+)?(system|instructions|prompt|rules|directives)"
        severity_critical
    ∷ pattern_of "repeat_after"
        "(?i)(repeat|say|write)\\s+(after\\s+me|the\\s+words|exactly\\s+this)" severity_high
    ∷ pattern_of "ignore_above" "(?i)ignore\\s+the\\s+above" severity_high
    ∷ pattern_of "delimiter_confusion"
        "(?i)(<\\|im_start\\|>|<\\|im_end\\|>|<\\|sys\\|>|<\\|user\\|>|<\\|assistant\\|>)"
        severity_critical
    ∷ pattern_of "tool_injection" "(?i)use\\s+(tool|function)\\s+\\w+\\s+(to|with|on)" severity_high
    ∷ pattern_of "data_exfiltration"
        "(?i)(exfiltrate|exfiltrat|leak|steal)\\s+(data|info|information|records|customers?|users?)"
        severity_critical
    ∷ pattern_of "mass_export" "(?i)(export|download|copy|transfer|send)\\s+(all|every|entire|mass)"
        severity_high
    ∷ pattern_of "instruction_redirect" "(?i)(now|instead),?\\s+(say|respond|output|answer|write)"
        severity_high
    ∷ pattern_of "output_control" "(?i)output\\s+\\d+\\s*(tokens?|words?|chars?)" severity_medium
    ∷ pattern_of "hidden_text"
        "(?i)(<div[^>]*style=[^>]*display:\\s*none|<span[^>]*style=[^>]*display:\\s*none|<!--.*-->)"
        severity_critical
    ∷ pattern_of "base64_injection" "(?i)[A-Za-z0-9+/]{40,}={0,2}" severity_medium
    ∷ []

unfoldable pub risk_of_severity : InjectionSeverity → RiskLevel
risk_of_severity severity_critical = critical
risk_of_severity severity_high = high
risk_of_severity severity_medium = medium
risk_of_severity severity_low = low

-- `Debug` of a risk level
unfoldable pub debug_risk : RiskLevel → String
debug_risk low = "Low"
debug_risk medium = "Medium"
debug_risk high = "High"
debug_risk critical = "Critical"

module _ (P : Platform) where
  open P use {regex_find}

  -- The matches of one pattern, none if it is no regular expression.
  unfoldable pub matches_of : String → InjectionPattern → List MatchedPattern
  matches_of full_text p = elim (regex_find p.pattern) [
    | none ↦ []
    | some find_iter ↦
        map (λ t. record { name = p.name; severity = p.severity; match_text = t })
          (find_iter full_text)
  ]

  unfoldable pub all_matches : String → List InjectionPattern → List MatchedPattern
  unfolding matches_of
  all_matches full_text [] = []
  all_matches full_text (p ∷ ps) = matches_of full_text p ++ all_matches full_text ps

  abbrev pub greatest : InjectionSeverity → List MatchedPattern → InjectionSeverity
  greatest best [] = best
  greatest best (p ∷ ps) = greatest (max_severity best p.severity) ps

  abbrev pub is_some_match : List MatchedPattern → Bool
  is_some_match [] = false
  is_some_match (p ∷ ps) = true

  unfoldable pub analyze : String → Option String → InjectionResult
  unfolding all_matches risk_of_severity
  analyze intent payload =
      let matched = all_matches (intent <> (" " <> unwrap_or payload "")) injection_patterns in
      record {
        detected = is_some_match matched;
        patterns = matched;
        risk_level = risk_of_severity (greatest severity_low matched);
      }

unfoldable pub injection_context : InjectionResult → Option String
unfolding join show_severity debug_risk
injection_context result =
    if result.detected
    then some (
        "PROMPT INJECTION DETECTED — patterns matched: "
        <> (join ", " (
              map
                (λ p.
                  p.name <> (" (" <> (p.match_text <> (": " <> (show_severity p.severity <> ")")))))
                result.patterns)
            <> (" | risk: " <> debug_risk result.risk_level)))
    else none
