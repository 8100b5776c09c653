-- ===== src/Services/Tables.antt =====
-- views/Services.jsx, lines 75 to 123: the names of the rulesets, the levels and the flags of the engine.
use karna.Common.{String, Bool, true, false, List, [], ◌∷◌, map}
use karna.Text.{Text, codes}

abbrev pub ruleset_labels : List (Text × Text)
ruleset_labels =
    (codes "method_enforcement", codes "Method")
    ∷ (codes "scanner_detection", codes "Scanner")
    ∷ (codes "protocol_enforcement", codes "Protocol enf.")
    ∷ (codes "protocol_attack", codes "Protocol atk")
    ∷ (codes "multipart_attack", codes "Multipart")
    ∷ (codes "lfi", codes "LFI")
    ∷ (codes "rfi", codes "RFI")
    ∷ (codes "rce", codes "RCE")
    ∷ (codes "php", codes "PHP")
    ∷ (codes "generic", codes "Generic")
    ∷ (codes "xss", codes "XSS")
    ∷ (codes "sqli", codes "SQLi")
    ∷ (codes "session_fixation", codes "Session")
    ∷ (codes "java", codes "Java")
    ∷ []

abbrev pub default_rulesets : List (String × Bool)
default_rulesets =
    ("method_enforcement", true)
    ∷ ("scanner_detection", true)
    ∷ ("protocol_enforcement", false)
    ∷ ("protocol_attack", true)
    ∷ ("multipart_attack", true)
    ∷ ("lfi", true)
    ∷ ("rfi", true)
    ∷ ("rce", true)
    ∷ ("php", true)
    ∷ ("generic", true)
    ∷ ("xss", true)
    ∷ ("sqli", true)
    ∷ ("session_fixation", true)
    ∷ ("java", true)
    ∷ []

-- The keys of each group of rulesets, by its label.
abbrev pub ruleset_groups : List (Text × List Text)
ruleset_groups =
    (
      codes "Request integrity",
      codes "method_enforcement"
          ∷ codes "protocol_enforcement"
          ∷ codes "protocol_attack"
          ∷ codes "multipart_attack"
          ∷ [],
    )
    ∷ (codes "Injection & scripting", codes "sqli" ∷ codes "xss" ∷ codes "rce" ∷ [])
    ∷ (codes "Application exploits", codes "lfi" ∷ codes "rfi" ∷ codes "php" ∷ codes "java" ∷ [])
    ∷ (
      codes "Discovery & abuse",
      codes "scanner_detection" ∷ codes "generic" ∷ codes "session_fixation" ∷ [],
    )
    ∷ []

-- The key, label and description of each flag of the engine.
abbrev pub engine_flags : List (String × Text × Text)
engine_flags =
    (
      "engine_fast_path",
      codes "Fast path",
      codes "Skips the per-rule ARGS deep-copy when it is not needed.",
    )
    ∷ (
      "engine_re2_scan",
      codes "RE2 scan",
      codes "Pre-filters @rx rules with one RE2::Set scan per request value.",
    )
    ∷ (
      "engine_ac_pm",
      codes "Aho-Corasick",
      codes "Runs @pm and @pmFromFile keyword matching through the native matcher.",
    )
    ∷ (
      "engine_re2_match",
      codes "RE2 matching",
      codes "Runs compatible @rx patterns with linear-time RE2 matching.",
    )
    ∷ []

abbrev pub default_engine_flags : List (String × Bool)
default_engine_flags = map (λ f. (f.0, true)) engine_flags
