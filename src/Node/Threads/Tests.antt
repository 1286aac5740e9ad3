-- ===== src/Node/Threads/Tests.antt =====
-- Interleavings of a node's threads after its start by src/main.c.
use ceell.Prelude.{ℕ, refl, true, false, none, some, [], ◌∷◌, arith, replicate}
use ceell.Prelude.Int.{pos}
use ceell.Errno.{ok, err, enodev, eio}
use ceell.Bytes.{Bytes, strncpy}
use ceell.Config.Load.{config_load, load_from, load_defaults, flash_is_empty}
use ceell.Discovery.{DiscoveryMsg}
use ceell.Discovery.Threads.{discovery_init}
use ceell.Safe.{WatchdogState}
use ceell.Messaging.Exchange.{messaging_init}
use ceell.Node.{net_setup, net_if_setup, netmask_calls, identity_init}
use ceell.Node.Boot.{Env, Statics, Progress, returned, going, main}
use ceell.Node.Lifecycle.{Life, Outside}
use ceell.Node.Threads.{
  Setting, Reach, here, next, hear, round, watch, after_hear, after_round, after_watch,
}
use ceell.Node.Threads.Invariant.{IsValid}
use ceell.Node.Threads.PowerOn.{entered, main-IsValid}

abbrev text : Bytes
text = b'1' ∷ b'0' ∷ []

abbrev hello : DiscoveryMsg
hello = record { node_id = pos 7; role = none; name = none; ip = none; services = some text }

abbrev setting : Setting ℕ
setting = record {
  interval = 100;
  timeout = 500;
  max_peers = 2;
  samples_max = 4;
  hz = 1000000;
  depth = 2;
  with_watchdog = true;
  with_echo = true;
  self = some 1;
  registry = record { services = []; svc_count = 0 };
  errno = λ e. 1;
  encodes = λ rsp. true;
  parse = λ buf. some hello;
  parse_req = λ buf. (none, buf);
  parse_rsp = λ buf. none;
}

abbrev env : Env
env = record {
  defaults = record { node_id = 1; role = text; name = text; ip = text; netmask = text };
  parsers = record {
    version_only = λ buf. (none, buf);
    config_v1 = λ buf. none;
    config_v2 = λ buf. none;
  };
  flash = record { opened = err enodev; read = ok; read_buf = []; mapped = replicate 512 255 };
  interface = record { is_there = true; pton = λ text. some text; takes = true };
  health_mutex = ok;
  safe_mutex = ok;
  disc_socket = record { socket = ok; fd = 3; bind = ok; join = err eio };
  msg_socket = ok;
  msg_bind = ok;
  auto_confirm = true;
  boot = record { is_confirmed = false; confirmed = ok; marked = ok };
}

abbrev cold : Statics ℕ ℕ
cold = record {
  identity = none;
  registry = record { services = []; svc_count = 0 };
  timing = record { samples = []; sample_head = 0; sample_count = 0; initialized = false };
  health = record { health_table = []; health_cb = false; health_initialized = false };
  safe = record { safe_active = 0; safe_reason_val = 0; safe_cb = false; safe_initialized = false };
  sock = none;
  threads = [];
  messaging = none;
  ota_running = false;
}

abbrev state_of : {S : Type 0} → Progress S → S
state_of (returned e s) = s
state_of (going s) = s

abbrev started : Statics ℕ ℕ
started = state_of (main 8 2 4 1000000 5353 text (some 1) (some 2) env cold)

abbrev guarded : WatchdogState
guarded = record { wdt_enabled = true; wdt_last_feed = pos 0; wdt_timeout = pos 5000 }

abbrev outside : Outside
outside = record {
  now = 200;
  start_cycle = 5;
  end_cycle = 9;
  encoded = true;
  sent = ok;
  responses = [];
  send_time = pos 200;
}

abbrev first : Life ℕ
first = entered setting guarded started

abbrev last : Life ℕ
last =
    after_watch setting 9000
      (after_round setting outside (after_hear setting 100 (some text) first))

some_rounds : Reach setting first last
some_rounds = next (next (next here (hear 100 (some text))) (round outside)) (watch 9000)

main-IsValid_example : IsValid setting last
unfolding main net_setup net_if_setup netmask_calls config_load load_from load_defaults
    flash_is_empty discovery_init messaging_init strncpy identity_init
main-IsValid_example =
    main-IsValid setting 8 5353 text (some 1) (some 2) env cold started guarded refl refl refl
      (omega arith) some_rounds
