-- ===== src/Routing/Messages.antt =====
-- What the senders of internal/routing share: sender.go, and the urgency of slack.go.
pub mod Slack
pub mod Discord
pub mod Webhook
pub mod Fit
use changelogue.Prelude.{
  ℕ, suc, zero, ◌+◌, ◌-◌, Bool, true, false, ◌&&◌, ◌||◌, not, Option, none, some, List, [], ◌∷◌,
  ◌++◌, map, Bytes, bytes, ltb, leb, ◌==◌, if◌then◌else◌, length, take, same, is_empty,
}
use changelogue.Exec.{Result, ok, err, external}
use changelogue.Text.{to_lower, trim_space}
use changelogue.Models.{Body, Link, release_link, semantic_link, Notification, NotificationChannel}

-- The fields of models.SemanticReport that messages use.
pub record ReportFields : Type 0 where
  pub subject : Bytes
  pub urgency : Bytes
  pub urgency_reason : Bytes
  pub changelog_summary : Bytes
  pub download_commands : List Bytes
  pub summary : Bytes
  pub risk_level : Bytes
  pub risk_reason : Bytes

-- The expressions of sender.go.
pub data Pattern : Type 0 where
  image github_pr md_link setext_h1 setext_h2 heading bold_star bold_underscore : Pattern
  inline_code html blank_lines : Pattern

-- Parameters: regexp's ReplaceAllString, and ReplaceAllStringFunc of the first group; encoding/json,
-- for a report and for the texts "changelog" and "release_url" of an object; the text of a UUID.
pub record Formatter : Type 0 where
  pub replace : Pattern → Bytes → Bytes → Bytes
  pub replace_group : Pattern → (Bytes → Bytes) → Bytes → Bytes
  pub read_report : Body → Option ReportFields
  pub read_raw : Body → Option (Bytes × Bytes)
  pub id_text : ℕ → Bytes

unfoldable pub upper_byte : ℕ → ℕ
upper_byte c = if leb b'a' c && leb c b'z' then c - 32 else c

-- strings.ToUpper
unfoldable pub to_upper : Bytes → Bytes
unfolding upper_byte
to_upper s = map upper_byte s

-- strings.Join
unfoldable pub join_with : Bytes → List Bytes → Bytes
join_with sep [] = []
join_with sep (s ∷ []) = s
join_with sep (s ∷ t ∷ rest) = s ++ (sep ++ join_with sep (t ∷ rest))

-- strings.Repeat with one byte
unfoldable pub repeat_byte : ℕ → ℕ → Bytes
repeat_byte c zero = []
repeat_byte c (suc n) = c ∷ repeat_byte c n

-- A text, or another one where it is empty.
abbrev pub text_or : Bytes → Bytes → Bytes
text_or [] other = other
text_or (c ∷ text) other = c ∷ text

-- `if len(s) > limit { s = s[:limit-3] + "..." }`
unfoldable pub cut_to : ℕ → Bytes → Bytes
cut_to limit s = if ltb limit (length s) then take (limit - 3) s ++ bytes "..." else s

abbrev pub link_text : Formatter → Option Link → Bytes
link_text format none = []
link_text format (some (release_link url id)) = url ++ (bytes "/releases/" ++ format.id_text id)
link_text format (some (semantic_link url project id)) =
    url
    ++ (bytes "/projects/"
        ++ (format.id_text project ++ (bytes "/semantic-releases/" ++ format.id_text id)))

abbrev pub todo_text : Formatter → Option ℕ → Bytes
todo_text format none = []
todo_text format (some id) = format.id_text id

-- ProviderLabel
unfoldable pub provider_label : Bytes → Bytes
unfolding to_lower same
provider_label provider =
    let name = to_lower provider in
    if same name (bytes "github")
    then bytes "GitHub"
    else if same name (bytes "dockerhub")
    then bytes "Docker Hub"
    else if same name (bytes "ecr-public")
    then bytes "ECR Public"
    else if same name (bytes "ghcr")
    then bytes "GHCR"
    else if same name (bytes "gitlab")
    then bytes "GitLab"
    else provider

abbrev pub todo_url : Bytes → Bytes → Bytes → Bytes
todo_url action public_url todo =
    if is_empty public_url || is_empty todo
    then []
    else public_url
      ++ (bytes "/api/v1/todos/" ++ (todo ++ (b'/' ∷ (action ++ bytes "?redirect=true"))))

-- TodoAcknowledgeURL and TodoResolveURL
unfoldable pub todo_acknowledge_url : Bytes → Bytes → Bytes
todo_acknowledge_url public_url todo = todo_url (bytes "acknowledge") public_url todo

unfoldable pub todo_resolve_url : Bytes → Bytes → Bytes
todo_resolve_url public_url todo = todo_url (bytes "resolve") public_url todo

-- parseRawBody
abbrev pub unless_both_empty : Option (Bytes × Bytes) → Option (Bytes × Bytes)
unless_both_empty none = none
unless_both_empty (some (changelog, url)) =
    if is_empty changelog && is_empty url then none else some (changelog, url)

unfoldable pub parse_raw_body : Formatter → Body → Option (Bytes × Bytes)
parse_raw_body format body = unless_both_empty (format.read_raw body)

-- The changelog of a body, empty where it does not parse.
abbrev pub changelog_of : Option (Bytes × Bytes) → Bytes
changelog_of none = []
changelog_of (some (changelog, url)) = changelog

-- A title between two rows of dashes.
unfoldable pub boxed : Bytes → Bytes
unfolding trim_space repeat_byte
boxed text =
    let title = trim_space text in
    let dashes = repeat_byte b'-' (length title) in dashes ++ (10 ∷ (title ++ (10 ∷ dashes)))

-- markdownToASCII
unfoldable pub markdown_to_ascii : Formatter → Bytes → Bytes
unfolding boxed trim_space
markdown_to_ascii format md =
    let no_images = format.replace image (bytes "$1") md in
    let numbered = format.replace github_pr (bytes "#$3 ( $0 )") no_images in
    let linked = format.replace md_link (bytes "$1 ( $2 )") numbered in
    let boxed_h1 = format.replace_group setext_h1 boxed linked in
    let boxed_h2 = format.replace_group setext_h2 boxed boxed_h1 in
    let headed = format.replace_group heading boxed boxed_h2 in
    let no_stars = format.replace bold_star (bytes "$1") headed in
    let no_bold = format.replace bold_underscore (bytes "$1") no_stars in
    let no_code = format.replace inline_code (bytes "$1") no_bold in
    let no_tags = format.replace html [] no_code in
    trim_space (format.replace blank_lines (10 ∷ 10 ∷ []) no_tags)

-- `strings.ToUpper(strings.TrimSpace(level))`
unfoldable pub level_of : Bytes → Bytes
unfolding to_upper trim_space
level_of text = to_upper (trim_space text)

-- urgencyEmoji, in UTF-8: a green, a yellow, a red, a black and a white circle.
unfoldable pub urgency_emoji : Bytes → Bytes
unfolding level_of same
urgency_emoji text =
    let level = level_of text in
    if same level (bytes "LOW")
    then 240 ∷ 159 ∷ 159 ∷ 162 ∷ []
    else if same level (bytes "MEDIUM")
    then 240 ∷ 159 ∷ 159 ∷ 161 ∷ []
    else if same level (bytes "HIGH")
    then 240 ∷ 159 ∷ 148 ∷ 180 ∷ []
    else if same level (bytes "CRITICAL")
    then 226 ∷ 154 ∷ 171 ∷ []
    else 226 ∷ 154 ∷ 170 ∷ []

unfoldable pub is_urgent : Bytes → Bool
unfolding level_of same
is_urgent text = same (level_of text) (bytes "CRITICAL") || same (level_of text) (bytes "HIGH")

-- The fields of a report, with those of old reports in their place.
abbrev pub urgency_of : ReportFields → Bytes
urgency_of r = text_or r.urgency r.risk_level

abbrev pub reason_of : ReportFields → Bytes
reason_of r = text_or r.urgency_reason r.risk_reason

abbrev pub summary_of : ReportFields → Bytes
summary_of r = text_or r.changelog_summary r.summary

-- One element, or none.
abbrev pub only_if {ℓ} : {A : Type ℓ} → Bool → A → List A
only_if true a = a ∷ []
only_if false a = []

abbrev pub in_backticks : Bytes → Bytes
in_backticks text = b'`' ∷ (text ++ (b'`' ∷ []))

unfoldable pub first_command {ℓ} : {A : Type ℓ} → (Bytes → A) → List Bytes → List A
first_command put [] = []
first_command put (command ∷ rest) = put (in_backticks command) ∷ []

-- "<label> · <repository>"
abbrev pub origin_of : Notification → Bytes
origin_of msg = provider_label msg.provider ++ (32 ∷ 194 ∷ 183 ∷ 32 ∷ msg.repository)

abbrev pub has_origin : Notification → Bool
has_origin msg = not (is_empty msg.provider) && not (is_empty msg.repository)

-- There is a todo to acknowledge, and a URL to do it with.
abbrev pub has_todo : Formatter → Notification → Bool
has_todo format msg = not (is_empty (todo_text format msg.todo_id)) && not (is_empty msg.public_url)

-- A body that is a report with a subject.
abbrev pub with_subject : Option ReportFields → Option ReportFields
with_subject none = none
with_subject (some r) = if is_empty r.subject then none else some r

unfoldable pub report_of : Formatter → Notification → Option ReportFields
report_of format msg = with_subject (format.read_report msg.body)

-- The end of a delivery: the status of the answer, or no answer.
abbrev pub delivered : Option ℕ → Result (Unit {0})
delivered none = err external
delivered (some status) = if leb 400 status then err external else ok tt

-- The configuration of a channel for Slack or Discord.
pub record HookConfig : Type 0 where
  pub webhook_url : Bytes
  pub additional_message : Bytes
