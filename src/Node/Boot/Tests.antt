-- ===== src/Node/Boot/Tests.antt =====
-- Starts of a node by src/main.c with a configuration from the defaults.
use ceell.Prelude.{true, ℕ, false, none, some, [], ◌∷◌, replicate}
use ceell.Errno.{ok, err, enodev, enomem, eio}
use ceell.Bytes.{Bytes}
use ceell.Config.Load.{config_load}
use ceell.Discovery.Threads.{discovery_init}
use ceell.Messaging.Exchange.{messaging_init}
use ceell.Node.{net_setup}
use ceell.Node.Boot.{Env, Statics, main}
use ceell.Node.Boot.Outcome.{first_error, Ends, main_lem}

abbrev text : Bytes
text = b'1' ∷ b'0' ∷ []

-- The flash cannot be opened, and what is mapped is empty.
abbrev env : Env
env = record {
  defaults = record { node_id = 1; role = text; name = text; ip = text; netmask = text };
  parsers = record {
    version_only = λ buf. (none, buf);
    config_v1 = λ buf. none;
    config_v2 = λ buf. none;
  };
  flash = record { opened = err enodev; read = ok; read_buf = []; mapped = replicate 512 255 };
  interface = record { is_there = true; pton = λ text. some text; takes = true };
  health_mutex = ok;
  safe_mutex = ok;
  disc_socket = record { socket = ok; fd = 3; bind = ok; join = err eio };
  msg_socket = ok;
  msg_bind = err enomem;
  auto_confirm = true;
  boot = record { is_confirmed = false; confirmed = ok; marked = ok };
}

abbrev cold : Statics ℕ ℕ
cold = record {
  identity = none;
  registry = record { services = []; svc_count = 0 };
  timing = record { samples = []; sample_head = 0; sample_count = 0; initialized = false };
  health = record { health_table = []; health_cb = false; health_initialized = false };
  safe = record { safe_active = 0; safe_reason_val = 0; safe_cb = false; safe_initialized = false };
  sock = none;
  threads = [];
  messaging = none;
  ota_running = false;
}

main_lem_example :
    Ends 8 4 16 1000000 5353 text
      (some 1)
      (some 2)
      env
      cold
      (first_error (
        net_setup env.interface (some (config_load env.defaults env.parsers env.flash))
        ∷ (discovery_init 5353 text env.disc_socket).0
        ∷ (messaging_init {A = ℕ} env.msg_socket env.msg_bind).0
        ∷ []))
      (main 8 4 16 1000000 5353 text (some 1) (some 2) env cold)
main_lem_example = main_lem 8 4 16 1000000 5353 text (some 1) (some 2) env cold
