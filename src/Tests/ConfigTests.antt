-- ===== src/Tests/ConfigTests.antt =====
-- Runs of the preparation of a launch, and its theorems at them.
use pitlane_agent.Common.{ℕ, ◌<◌, String, ◌≡◌, ◌↔◌, refl, none, Bool, true, false, [], ◌∷◌}
use pitlane_agent.Common.Int.{pos}
use pitlane_agent.Common.Json.{
  Value, Fields, integer, text, array, object, nil, cons, end, field, get,
}
use pitlane_agent.Common.Text.{strip}
use pitlane_agent.Config.Policy.{normalize_runtime_policy}
use pitlane_agent.Config.Bundle.{Hashing, announced, legacy_keys, validate_runtime_bundle}
use pitlane_agent.Config.Acceptance.{IsAccepted, validate_runtime_bundle_accepts}
use pitlane_agent.Config.EntryList.{validated_native_payload}
use pitlane_agent.Config.SteamIds.{IsWhitelist, validated_native_payload-IsWhitelist}
use pitlane_agent.Config.Files.{Files}
use pitlane_agent.Config.Finalize.{Local, Instance}
use pitlane_agent.Config.Prepare.{Prepared, prepared, prepare_launch}
use pitlane_agent.Config.Launching.{IsOutcome, prepare_launch-IsOutcome}
use pitlane_agent.Config.Frames.{header, big_endian, header_exact}

abbrev digest : String
digest = "0123456789abcdef0123456789abcdef0123456789abcdef0123456789abcdef"

abbrev text_of : Value → String
text_of (text s) = s
text_of _ = ""

abbrev hashing : Hashing
hashing = record { str_or_empty = text_of; lower = λ s. s; bundle_hash = λ d. digest }

-- The `Server` object with its seven private fields, before and after they are filled in.
abbrev server : String → Fields → Fields
server s d = field "AdminPassword" (text s) (
    field "DriverPassword" (text s) (
      field "LaunchSessionId" (text s) (
        field "ResultCorrelationId" (text "") (
          field "ResultsPath" (text s)
            (field "ResultsPostUrl" (text s) (field "SpectatorPassword" (text s) d))))))

abbrev ports : Fields
ports =
    field "TcpPort" (integer (pos 9600))
      (field "UdpPort" (integer (pos 9600)) (field "HttpPort" (integer (pos 8080)) end))

abbrev pub config : String → Fields
config s = field "Server" (object (server s ports)) (field "Event" (text "monza") end)

abbrev bundle : Value
bundle = object (
    field "schema_version" (integer (pos 1)) (
      field "materialized_fields" (array (announced legacy_keys))
        (field "runtime_config" (object (config "")) end)))

validate_runtime_bundle_accepts_example :
    IsAccepted hashing bundle (text digest) (object (config "secret")) digest
unfolding validate_runtime_bundle strip
validate_runtime_bundle_accepts_example =
    validate_runtime_bundle_accepts hashing bundle (text digest) (object (config "secret")) refl

abbrev is_digit : ℕ → Bool
is_digit c = true

abbrev entry_list : Fields
entry_list =
    field "native_payload"
      (object (
        field "steamid_whitelist" (array (cons (text "76561198000000001") nil))
          (field "entrylist" (array nil) (field "steamid_blacklist" (array nil) end))))
      (field "authorized_count" (integer (pos 1)) (
        field "entries"
          (array (cons (object (field "steam_id" (text "76561198000000001") end)) nil)) end))

validated_native_payload-IsWhitelist_example :
    IsWhitelist is_digit entry_list ("76561198000000001" ∷ [])
unfolding validated_native_payload
validated_native_payload-IsWhitelist_example =
    validated_native_payload-IsWhitelist is_digit entry_list refl

abbrev pub machine : Local
machine = record {
  naming = record { str_or = λ v s. text_of v; path_name = λ s. s };
  hashing = hashing;
  is_digit = is_digit;
  int_text = λ s. none;
  results_path = λ i c. "results/";
  entry_list_path = λ s. s;
  writes = true;
  writes_current = true;
}

abbrev pub instance_9600 : Instance
instance_9600 = record { id = "i"; tcp_port = pos 9600; udp_port = pos 9600; http_port = pos 8080 }

abbrev body : Fields
body =
    field "launch_id" (text "5")
      (field "runtime_bundle" bundle (field "runtime_bundle_hash" (text digest) end))

abbrev no_files : Files
no_files = record { current = []; history = []; entry_lists = [] }

prepare_launch-IsOutcome_example :
    IsOutcome machine.naming instance_9600
      (text "5")
      no_files
      (prepare_launch (λ c. true) machine instance_9600 body (config "secret") no_files)
unfolding get
prepare_launch-IsOutcome_example =
    prepare_launch-IsOutcome (λ c. true) machine instance_9600 body (config "secret") no_files

-- The run ends with a prepared configuration.
abbrev is_prepared : Prepared → Bool
is_prepared (prepared c policy hash) = true
is_prepared _ = false

prepared_run :
    is_prepared (prepare_launch (λ c. true) machine instance_9600 body (config "secret") no_files).1
    ≡ true
unfolding prepare_launch strip normalize_runtime_policy
prepared_run = refl

header_exact_example : (big_endian 0 (header 70000) ≡ 70000) ↔ (70000 < 65536)
header_exact_example = header_exact 70000
