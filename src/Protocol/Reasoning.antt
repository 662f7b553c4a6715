-- ===== src/Protocol/Reasoning.antt =====
-- internal/protocol/reasoning.go: which texts name a reasoning level.
use providerapi.Prelude.{ℕ, String, Bool, ◌||◌, Option, none, some, List, ◌==◌, if◌then◌else◌}
use providerapi.Text.{codes, same_codes, to_lower, trim_space, is_empty}
use providerapi.Protocol.Types.{
  ReasoningLevel, reasoning_default, reasoning_off, reasoning_low, reasoning_medium, reasoning_high,
  reasoning_max,
}

-- The cases of the `switch`, on the code points of the trimmed text in lower case.
unfoldable pub level_of : List ℕ → Option ReasoningLevel
level_of s =
    if same_codes s (codes "") || same_codes s (codes "default")
    then some reasoning_default
    else if same_codes s (codes "off") || same_codes s (codes "none")
    then some reasoning_off
    else if same_codes s (codes "low")
    then some reasoning_low
    else if same_codes s (codes "medium")
    then some reasoning_medium
    else if same_codes s (codes "high")
    then some reasoning_high
    else if same_codes s (codes "max") || same_codes s (codes "xhigh")
    then some reasoning_max
    else none

unfoldable pub parse_reasoning_level : String → Option ReasoningLevel
unfolding level_of to_lower trim_space
parse_reasoning_level s = level_of (to_lower (trim_space s))

unfoldable pub is_zero : ReasoningLevel → Bool
is_zero l = is_empty l || l == reasoning_default
