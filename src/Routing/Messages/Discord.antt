-- ===== src/Routing/Messages/Discord.antt =====
-- internal/routing/discord.go.
use changelogue.Prelude.{
  ℕ, ◌&&◌, not, Option, none, some, List, [], ◌∷◌, ◌++◌, Bytes, bytes, if◌then◌else◌, is_empty,
  same,
}
use changelogue.Exec.{Result, err, external}
use changelogue.Text.{trim_space}
use changelogue.Models.{Notification}
use changelogue.Routing.Messages.{
  ReportFields, Formatter, join_with, cut_to, link_text, todo_text, provider_label,
  todo_acknowledge_url, todo_resolve_url, parse_raw_body, changelog_of, markdown_to_ascii, level_of,
  urgency_emoji, is_urgent, urgency_of, reason_of, summary_of, only_if, first_command, origin_of,
  has_origin, has_todo, report_of, delivered, HookConfig,
}

-- A field has a name and a value and stands inline.
pub record DiscordEmbed : Type 0 where
  pub title : Bytes
  pub description : Bytes
  pub color : ℕ
  pub fields : List (Bytes × Bytes)
  pub footer : Option Bytes

pub record DiscordPayload : Type 0 where
  pub content : Bytes
  pub embeds : List DiscordEmbed

abbrev pub embed_description_limit : ℕ
embed_description_limit = 4096

-- discordUrgencyColor: 0x111113, 0xDC2626, 0xD97706, 0x16A34A and 0x5865F2.
unfoldable pub discord_urgency_color : Bytes → ℕ
unfolding level_of same
discord_urgency_color text =
    let level = level_of text in
    if same level (bytes "CRITICAL")
    then 1118483
    else if same level (bytes "HIGH")
    then 14427686
    else if same level (bytes "MEDIUM")
    then 14251782
    else if same level (bytes "LOW")
    then 1483594
    else 5793266

-- "[text](url)"
abbrev pub markdown_link : Bytes → Bytes → Bytes
markdown_link text url = b'[' ∷ (text ++ (bytes "](" ++ (url ++ bytes ")")))

abbrev pub todo_links : Formatter → Notification → List Bytes
todo_links format msg =
    if has_todo format msg
    then markdown_link (bytes "Acknowledge")
        (todo_acknowledge_url msg.public_url (todo_text format msg.todo_id))
      ∷ markdown_link (bytes "Resolve")
          (todo_resolve_url msg.public_url (todo_text format msg.todo_id))
      ∷ []
    else []

abbrev pub message_links : Formatter → Notification → List Bytes
message_links format msg =
    only_if (not (is_empty msg.source_url))
      (markdown_link (bytes "View on " ++ provider_label msg.provider) msg.source_url)
    ++ (only_if (not (is_empty (link_text format msg.release_url)))
          (markdown_link (bytes "View in Changelogue") (link_text format msg.release_url))
        ++ todo_links format msg)

-- With a bullet between two pairs of spaces.
abbrev pub joined_links : List Bytes → List Bytes
joined_links [] = []
joined_links (link ∷ links) =
    join_with (32 ∷ 32 ∷ 226 ∷ 128 ∷ 162 ∷ 32 ∷ 32 ∷ []) (link ∷ links) ∷ []

-- "<emoji> **<urgency> Urgency**"
abbrev pub badge : Bytes → Bytes
badge urgency = urgency_emoji urgency ++ (bytes " **" ++ (urgency ++ bytes " Urgency**"))

unfoldable pub report_parts : Formatter → ReportFields → Notification → List Bytes
unfolding urgency_emoji is_urgent first_command join_with provider_label
report_parts format report msg =
    only_if (not (is_empty (urgency_of report))) (badge (urgency_of report))
    ++ (only_if (is_urgent (urgency_of report) && not (is_empty (reason_of report)))
          (reason_of report)
        ++ (only_if (not (is_empty (summary_of report))) (summary_of report)
            ++ (first_command (λ text. text) report.download_commands
                ++ joined_links (message_links format msg))))

-- The parts with an empty line between them, cut to the limit.
unfoldable pub described : List Bytes → Bytes
unfolding join_with cut_to
described parts = cut_to embed_description_limit (join_with (10 ∷ 10 ∷ []) parts)

abbrev pub footer_of : Notification → Option Bytes
footer_of msg = if has_origin msg then some (origin_of msg) else none

-- buildSemanticEmbed
unfoldable pub build_semantic_embed : Formatter → Bytes → ReportFields → Notification → DiscordEmbed
unfolding report_parts described discord_urgency_color
build_semantic_embed format title report msg = record {
  title = title;
  description = described (report_parts format report msg);
  color = discord_urgency_color (urgency_of report);
  fields = [];
  footer = footer_of msg;
}

abbrev pub changelog_part : Formatter → Bytes → List Bytes
changelog_part format [] = []
changelog_part format (c ∷ changelog) =
    (bytes "```" ++ (markdown_to_ascii format (c ∷ changelog) ++ bytes "```")) ∷ []

unfoldable pub release_parts : Formatter → Notification → List Bytes
unfolding markdown_to_ascii parse_raw_body join_with provider_label
release_parts format msg =
    changelog_part format (changelog_of (parse_raw_body format msg.body))
    ++ joined_links (message_links format msg)

abbrev pub embed_of : Formatter → Notification → Option ReportFields → DiscordEmbed
embed_of format msg (some report) = build_semantic_embed format msg.title report msg
embed_of format msg none = record {
  title = msg.title;
  description = described (release_parts format msg);
  color = 5793266;
  fields = (bytes "Version", msg.version) ∷ [];
  footer = footer_of msg;
}

-- The webhook, to which `post` sends a payload, gives the status of its answer.
unfoldable pub send_to_discord :
    Formatter
    → (Bytes → DiscordPayload → Option ℕ)
    → Option HookConfig
    → Notification
    → Result (Unit {0})
unfolding build_semantic_embed described release_parts report_of trim_space
send_to_discord format post none msg = err external
send_to_discord format post (some cfg) msg = delivered (
    post cfg.webhook_url (record {
      content = trim_space cfg.additional_message;
      embeds = embed_of format msg (report_of format msg) ∷ [];
    }))
