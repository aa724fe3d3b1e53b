-- ===== src/Ingestion/Upstream/Challenge.antt =====
-- parseBearerChallenge of internal/ingestion/ghcr.go.
use changelogue.Prelude.{Option, none, some, List, [], ◌∷◌, Bytes, bytes, if◌then◌else◌, same, drop}
use changelogue.Text.{to_lower, has_prefix, cut, split, trim_space}
use changelogue.Text.Affix.{trim_byte}

-- realm, service and scope
pub record Challenge : Type 0 where
  pub realm : Bytes
  pub service : Bytes
  pub scope : Bytes

abbrev pub no_challenge : Challenge
no_challenge = record { realm = []; service = []; scope = [] }

abbrev pub set_field : Bytes → Bytes → Challenge → Challenge
set_field key value c =
    if same key (bytes "realm")
    then record c { realm = value }
    else if same key (bytes "service")
    then record c { service = value }
    else if same key (bytes "scope")
    then record c { scope = value }
    else c

-- 34 is the quotation mark.
abbrev pub set_part : Bytes × Option Bytes → Challenge → Challenge
set_part (key, none) c = c
set_part (key, some value) c = set_field (to_lower key) (trim_byte 34 value) c

unfoldable pub read_parts : List Bytes → Challenge → Challenge
unfolding cut trim_space trim_byte to_lower same
read_parts [] c = c
read_parts (part ∷ parts) c = read_parts parts (set_part (cut b'=' (trim_space part)) c)

abbrev pub parse_trimmed : Bytes → Challenge
parse_trimmed challenge =
    if has_prefix (bytes "bearer ") (to_lower challenge)
    then read_parts (split b',' (trim_space (drop 7 challenge))) no_challenge
    else no_challenge

-- parseBearerChallenge
unfoldable pub parse_bearer_challenge : Bytes → Challenge
unfolding trim_space to_lower has_prefix split read_parts
parse_bearer_challenge challenge = parse_trimmed (trim_space challenge)
