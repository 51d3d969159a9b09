-- ===== src/SpyServer/Configure.antt =====
-- `spyserver_client_initialize`, the configuration of the remote device. The digital gain, a product
-- of floating-point numbers made an integer, is an argument.
use iq_tool.Prelude.{
  ℕ, ◌≡◌, refl, List, [], ◌∷◌, ◌++◌, Bool, true, false, Option, none, some, if◌then◌else◌,
}
use iq_tool.SdrPacket.{to_le32}
use iq_tool.SpyServer.{Calls, result, send}
use iq_tool.SpyServer.Handshake.{cmd_set_setting}
use iq_tool.SpyServer.Running.{run_from, run_calls}

-- `SpyServerSettingType`, and `SPYSERVER_STREAM_MODE_IQ_ONLY`
abbrev pub streaming_mode : ℕ
streaming_mode = 0

abbrev pub streaming_enabled : ℕ
streaming_enabled = 1

abbrev pub gain : ℕ
gain = 2

abbrev pub iq_format : ℕ
iq_format = 100

abbrev pub iq_frequency : ℕ
iq_frequency = 101

abbrev pub iq_decimation : ℕ
iq_decimation = 102

abbrev pub iq_digital_gain : ℕ
iq_digital_gain = 103

abbrev pub iq_only : ℕ
iq_only = 1

-- `send_setting`, and how it goes on.
abbrev pub setting_bytes : ℕ → ℕ → List ℕ
setting_bytes setting value =
    to_le32 cmd_set_setting ++ (to_le32 8 ++ (to_le32 setting ++ to_le32 value))

unfoldable pub send_setting : ℕ → ℕ → Calls Bool → Calls Bool
send_setting setting value next =
    send (setting_bytes setting value) λ sent. if sent then next else result false

-- What is set, and `set_gain`, which is done where the gain is given.
pub record Wanted : Type 0 where
  pub rf_freq_hz : ℕ
  pub dec_index_to_send : ℕ
  pub format_to_request : ℕ
  pub gain_given : Option ℕ
  pub digital_gain : ℕ

unfoldable pub set_gain : Option ℕ → Calls Bool → Calls Bool
set_gain none next = next
set_gain (some g) next = send_setting gain g next

unfoldable pub configure : Wanted → Calls Bool
configure w = send_setting iq_frequency w.rf_freq_hz (
    send_setting iq_decimation w.dec_index_to_send (
      send_setting iq_format w.format_to_request (
        set_gain w.gain_given (
          send_setting iq_digital_gain w.digital_gain
            (send_setting streaming_mode iq_only (result true))))))

-- `SPYSERVER_SETTING_STREAMING_ENABLED`, with which `spyserver_client_start_stream` begins.
unfoldable pub enable_streaming : Calls Bool
enable_streaming = send_setting streaming_enabled 1 (result true)

-- The settings in the order in which the device gets them.
pub gain_settings : Option ℕ → List (ℕ × ℕ)
gain_settings none = []
gain_settings (some g) = (gain, g) ∷ []

abbrev pub settings_of : Wanted → List (ℕ × ℕ)
settings_of w =
    (iq_frequency, w.rf_freq_hz)
    ∷ (iq_decimation, w.dec_index_to_send)
    ∷ (iq_format, w.format_to_request)
    ∷ (gain_settings w.gain_given
        ++ ((iq_digital_gain, w.digital_gain) ∷ (streaming_mode, iq_only) ∷ []))

pub all_bytes : List (ℕ × ℕ) → List ℕ
all_bytes [] = []
all_bytes ((setting, value) ∷ rest) = setting_bytes setting value ++ all_bytes rest

configured :
    (f d q : ℕ) (g : Option ℕ) (dg : ℕ) (input : List ℕ)
    → let w : Wanted = record {
      rf_freq_hz = f;
      dec_index_to_send = d;
      format_to_request = q;
      gain_given = g;
      digital_gain = dg;
    } in
      run_calls (configure w) input
      ≡ record { answer = true; sent = all_bytes (settings_of w); written = []; left = input }
unfolding configure set_gain gain_settings send_setting all_bytes run_from
configured f d q none dg input = refl
configured f d q (some g) dg input = refl

-- Where every message can be sent, the configuration succeeds, takes nothing from the socket, and
-- sends one message for every setting, the frequency first and the mode of the stream last, the
-- gain only where it is given.
pub configure_lem :
    (w : Wanted) (input : List ℕ)
    → run_calls (configure w) input
      ≡ record { answer = true; sent = all_bytes (settings_of w); written = []; left = input }
configure_lem w input =
    configured w.rf_freq_hz w.dec_index_to_send w.format_to_request w.gain_given w.digital_gain
      input
