-- ===== src/Routing/Messages/Slack.antt =====
-- internal/routing/slack.go.
use changelogue.Prelude.{
  ℕ, ◌&&◌, not, Option, none, some, List, [], ◌∷◌, ◌++◌, Bytes, bytes, if◌then◌else◌, is_empty,
}
use changelogue.Exec.{Result, err, external}
use changelogue.Text.{trim_space}
use changelogue.Models.{Notification}
use changelogue.Routing.Messages.{
  ReportFields, Formatter, join_with, cut_to, link_text, todo_text, provider_label,
  todo_acknowledge_url, todo_resolve_url, parse_raw_body, changelog_of, markdown_to_ascii,
  urgency_emoji, is_urgent, urgency_of, reason_of, summary_of, only_if, in_backticks, first_command,
  origin_of, has_origin, has_todo, report_of, delivered, HookConfig,
}

-- A block of a message; a button has its text and its URL.
pub data SlackBlock : Type 0 where
  header section : Bytes → SlackBlock
  context : Bytes → SlackBlock
  actions : List (Bytes × Bytes) → SlackBlock

pub record SlackAttachment : Type 0 where
  pub color : Bytes
  pub title : Bytes
  pub title_link : Bytes
  pub text : Bytes
  pub mrkdwn_in : List Bytes
  pub blocks : List SlackBlock

pub record SlackPayload : Type 0 where
  pub text : Bytes
  pub blocks : List SlackBlock
  pub attachments : List SlackAttachment

-- "<title> — <emoji> <urgency> Urgency"
abbrev pub header_text : Bytes → Bytes → Bytes
header_text title urgency =
    if is_empty urgency
    then title
    else title
      ++ (32
          ∷ 226
          ∷ 128
          ∷ 148
          ∷ 32
          ∷ (urgency_emoji urgency ++ (32 ∷ (urgency ++ bytes " Urgency"))))

-- A warning sign, and the reason.
abbrev pub reason_text : Bytes → Bytes
reason_text reason = 226 ∷ 154 ∷ 160 ∷ 239 ∷ 184 ∷ 143 ∷ 32 ∷ reason

-- "<url|View on label>" and "<url|View in Changelogue>"
abbrev pub source_link : Notification → Bytes
source_link msg =
    b'<' ∷ (msg.source_url ++ (bytes "|View on " ++ (provider_label msg.provider ++ bytes ">")))

abbrev pub internal_link : Bytes → Bytes
internal_link url = b'<' ∷ (url ++ bytes "|View in Changelogue>")

abbrev pub view_links : Formatter → Notification → List Bytes
view_links format msg =
    only_if (not (is_empty msg.source_url)) (source_link msg)
    ++ only_if (not (is_empty (link_text format msg.release_url)))
        (internal_link (link_text format msg.release_url))

-- The separator of links: two spaces, a bar, two spaces.
abbrev pub link_separator : Bytes
link_separator = bytes "  |  "

abbrev pub footer_block : List Bytes → List SlackBlock
footer_block [] = []
footer_block (part ∷ parts) = context (join_with link_separator (part ∷ parts)) ∷ []

abbrev pub todo_buttons : Formatter → Notification → SlackBlock
todo_buttons format msg = actions (
    (bytes "Acknowledge", todo_acknowledge_url msg.public_url (todo_text format msg.todo_id))
    ∷ (bytes "Resolve", todo_resolve_url msg.public_url (todo_text format msg.todo_id))
    ∷ [])

-- buildSemanticBlocks
unfoldable pub build_semantic_blocks :
    Formatter → Bytes → ReportFields → Notification → List SlackBlock
unfolding cut_to urgency_emoji is_urgent first_command join_with provider_label
build_semantic_blocks format title report msg =
    header (cut_to 150 (header_text title (urgency_of report)))
    ∷ (only_if (is_urgent (urgency_of report) && not (is_empty (reason_of report)))
          (section (reason_text (reason_of report)))
        ++ (only_if (not (is_empty (summary_of report))) (section (summary_of report))
            ++ (first_command section report.download_commands
                ++ (footer_block (only_if (has_origin msg) (origin_of msg) ++ view_links format msg)
                    ++ only_if (has_todo format msg) (todo_buttons format msg)))))

abbrev pub title_label : Notification → Bytes
title_label msg =
    if has_origin msg
    then msg.repository ++ (bytes " on " ++ provider_label msg.provider)
    else msg.title

-- "*<title>* `<version>`"
abbrev pub headline : Notification → Bytes
headline msg = b'*' ∷ (msg.title ++ (bytes "* " ++ in_backticks msg.version))

-- The changelog in a code block of its own lines.
abbrev pub code_block : Bytes → Bytes
code_block text = 10 ∷ (bytes "```" ++ (10 ∷ (text ++ (10 ∷ bytes "```"))))

abbrev pub links_line : List Bytes → Bytes
links_line [] = []
links_line (link ∷ links) = 10 ∷ join_with link_separator (link ∷ links)

-- The attachments of a release: its text with the links, and the buttons.
unfoldable pub release_attachments : Formatter → Notification → Bytes → List SlackAttachment
unfolding join_with provider_label
release_attachments format msg text =
    record {
      color = bytes "#D3D3D3";
      title = title_label msg;
      title_link = msg.source_url;
      text = text ++ links_line (view_links format msg);
      mrkdwn_in = bytes "text" ∷ [];
      blocks = [];
    }
    ∷ only_if (has_todo format msg) (record {
      color = bytes "#D3D3D3";
      title = [];
      title_link = [];
      text = [];
      mrkdwn_in = [];
      blocks = todo_buttons format msg ∷ [];
    })

abbrev pub release_text : Formatter → Notification → Bytes → Bytes
release_text format msg [] = headline msg
release_text format msg (c ∷ changelog) =
    headline msg ++ code_block (markdown_to_ascii format (c ∷ changelog))

-- The message without the configured text.
abbrev pub slack_message : Formatter → Notification → Option ReportFields → SlackPayload
slack_message format msg (some report) = record {
  text = [];
  blocks = build_semantic_blocks format msg.title report msg;
  attachments = [];
}
slack_message format msg none = record {
  text = [];
  blocks = [];
  attachments =
      release_attachments format msg
        (release_text format msg (changelog_of (parse_raw_body format msg.body)));
}

-- The webhook, to which `post` sends a payload, gives the status of its answer.
unfoldable pub send_to_slack :
    Formatter
    → (Bytes → SlackPayload → Option ℕ)
    → Option HookConfig
    → Notification
    → Result (Unit {0})
unfolding build_semantic_blocks release_attachments markdown_to_ascii parse_raw_body report_of
    trim_space
send_to_slack format post none msg = err external
send_to_slack format post (some cfg) msg = delivered (
    post cfg.webhook_url (record (slack_message format msg (report_of format msg)) {
      text = trim_space cfg.additional_message;
    }))
