-- ===== src/Samples/Messages.antt =====
-- A report about a project with a todo, for Slack and Discord.
use changelogue.Prelude.{◌≤◌, ◌≡◌, refl, All, none, some, true, [], ◌∷◌, ◌++◌, bytes, length}
use changelogue.Models.{plain_text, Notification, release_link}
use changelogue.Routing.Messages.{ReportFields, Formatter, cut_to, repeat_byte, is_urgent}
use changelogue.Routing.Messages.Slack.{slack_message}
use changelogue.Routing.Messages.Discord.{embed_of, embed_description_limit}
use changelogue.Routing.Messages.Fit.{
  HeaderFits, all_buttons, attached_buttons, due_buttons, messages-fit,
}

abbrev urgent : ReportFields
urgent = record {
  subject = bytes "v2";
  urgency = bytes "High";
  urgency_reason = bytes "CVE";
  changelog_summary = [];
  download_commands = bytes "docker pull x" ∷ [];
  summary = bytes "fixes";
  risk_level = [];
  risk_reason = [];
}

abbrev format : Formatter
format = record {
  replace = λ pattern to text. text;
  replace_group = λ pattern change text. text;
  read_report = λ body. some urgent;
  read_raw = λ body. none;
  id_text = λ id. bytes "7";
}

abbrev notification : Notification
notification = record {
  title = bytes "x v2";
  body = plain_text [];
  version = bytes "v2";
  project_name = bytes "x";
  provider = bytes "ghcr";
  repository = bytes "o/x";
  release_url = some (release_link (bytes "https://c") 5);
  source_url = [];
  todo_id = some 7;
  public_url = bytes "https://c";
}

-- A text at the limit is kept, and one past it is cut.
kept-cut_to : cut_to 5 (repeat_byte b'a' 5) ≡ repeat_byte b'a' 5
unfolding cut_to repeat_byte
kept-cut_to = refl

cut-cut_to : cut_to 5 (repeat_byte b'a' 6) ≡ bytes "aa..."
unfolding cut_to repeat_byte
cut-cut_to = refl

high-is_urgent : is_urgent (bytes " high ") ≡ true
unfolding is_urgent
high-is_urgent = refl

messages-fit_example :
    All HeaderFits (slack_message format notification (some urgent)).blocks
    × (all_buttons (slack_message format notification (some urgent)).blocks
          ++ attached_buttons (slack_message format notification (some urgent)).attachments
        ≡ due_buttons format notification)
    × (length (embed_of format notification (some urgent)).description ≤ embed_description_limit)
messages-fit_example = messages-fit format notification (some urgent)
