-- ===== src/Adapters/Notify.antt =====
-- internal/adapters/notify: the channels, with the text of a message (internal/core/notify.go).
-- net/http, net/smtp and encoding/json are parameters. The service sets the URL of the incident before it
-- sends a notification; here a channel makes it of the base URL.
use valaf.Common.{ℕ, String, ◌&&◌, List, [], ◌∷◌, ◌++◌, map, leb, ltb, ◌-◌, ◌==◌, if◌then◌else◌}
use valaf.Common.Text.{Text, codes, join, trim_right}
use valaf.Common.Maps.{Map}
use valaf.Common.Effect.{Result, ok, err, message, Eff}
use valaf.Core.Notify.{Notification, NotificationChannel}
use valaf.Store.Retrieval.{itoa}
use valaf.Adapters.Http.{HttpAnswer, unanswered, answered}

-- `incidentURL`, of the base URL without the slashes at its end
incident_url : Text → ℕ → Text
unfolding itoa
incident_url [] id = codes "/incidents/" ++ codes (itoa id)
incident_url (c ∷ t) id = c ∷ t ++ (codes "/incidents/" ++ codes (itoa id))

-- strings.ToUpper for ASCII, which the severities are
abbrev pub upper : Text → Text
upper t = map (λ c. if leb b'a' c && leb c b'z' then c - 32 else c) t

-- a text that is written if it is not empty, between two others
abbrev pub line_if : String → String → String → Text
line_if before s after = if s == "" then [] else codes before ++ (codes s ++ codes after)

-- `Notification.Text`
unfoldable pub text_of : Text → Notification → Text
text_of url n =
    codes "["
    ++ (upper (codes n.severity)
        ++ (codes "] "
            ++ (codes n.title
                ++ (line_if " — " n.verdict ""
                    ++ (codes "\n"
                        ++ (line_if "" n.summary "\n"
                            ++ (line_if "Most likely: " n.top_hypothesis "\n" ++ url)))))))

-- `buildMessage`
unfoldable pub build_message : Text → Text → List Text → Notification → Text
unfolding text_of join
build_message url from to n =
    codes "From: "
    ++ (from
        ++ (codes "\r\nTo: "
            ++ (join (codes ", ") to
                ++ (codes "\r\nSubject: [valaf] "
                    ++ (upper (codes n.severity)
                        ++ (codes " — "
                            ++ (codes n.title
                                ++ (codes
                                      "\r\nMIME-Version: 1.0\r\nContent-Type: text/plain; charset=utf-8\r\n\r\n"
                                    ++ (text_of url n ++ codes "\r\n")))))))))

-- what the channels call; `fields_json` prints a map of texts, and `notification_json` a notification
-- with its URL and its text
pub record Transport (S : Type 0) : Type 0 where
  pub post : Text → Map Text → String → S → HttpAnswer × S
  -- the address, the account, the sender, the recipients and the message
  pub send_mail : Text → String × String → Text → List Text → Text → Eff S Unit
  pub fields_json : Map Text → String
  pub notification_json : Text → Text → Notification → String

-- `postJSON` after the call
unfoldable pub read_post : {S : Type 0} → HttpAnswer × S → Result Unit × S
read_post (unanswered msg, s) = (err (message msg), s)
read_post (answered code body, s) = (
  if ltb code 200
      then err (message "http error")
      else if leb 300 code
      then err (message "http error")
      else ok tt,
  s,
)

abbrev pub bearer : String → Map Text
bearer token = if token == "" then [] else ("Authorization", codes "Bearer " ++ codes token) ∷ []

module _ {S : Type 0} (transport : Transport S) (base_url : Text) where
  -- the URL of an incident, as the service sets it
  abbrev pub url_of : Notification → Text
  unfolding incident_url trim_right
  url_of n = incident_url (trim_right b'/' base_url) n.incident_id

  unfoldable pub slack : Text → NotificationChannel S
  unfolding text_of read_post
  slack webhook_url = record {
    name = "slack";
    send = λ n s. read_post (
        transport.post webhook_url [] (transport.fields_json (("text", text_of (url_of n) n) ∷ []))
          s);
  }

  unfoldable pub telegram : Text → Text → NotificationChannel S
  unfolding text_of read_post
  telegram token chat_id = record {
    name = "telegram";
    send = λ n s. read_post (
        transport.post
          (codes "https://api.telegram.org" ++ (codes "/bot" ++ (token ++ codes "/sendMessage"))) []
          (transport.fields_json (
            ("chat_id", chat_id)
            ∷ ("text", text_of (url_of n) n)
            ∷ ("disable_web_page_preview", codes "true")
            ∷ []))
          s);
  }

  unfoldable pub webhook : Text → String → NotificationChannel S
  unfolding text_of read_post
  webhook url token = record {
    name = "webhook";
    send = λ n s. read_post (
        transport.post url (bearer token)
          (transport.notification_json (url_of n) (text_of (url_of n) n) n) s);
  }

  -- no account is used if the user's name is empty
  unfoldable pub email : Text → ℕ → String → String → Text → List Text → NotificationChannel S
  unfolding build_message itoa
  email host port username password from to = record {
    name = "email";
    send = λ n.
        transport.send_mail (host ++ b':' ∷ codes (itoa port)) (username, password) from to
          (build_message (url_of n) from to n);
  }
