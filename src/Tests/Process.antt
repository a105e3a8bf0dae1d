-- ===== src/Tests/Process.antt =====
-- The relayer and the start of the process at work.
use libp2p_submission_sequen.Prelude.{
  ℕ, ◌≡◌, ◌↔◌, refl, arith, Bytes, codes, List, [], ◌∷◌, ◌+◌, length, none, some, Result, ok, err,
}
use libp2p_submission_sequen.Golang.Decimal.{pos, negsuc}
use libp2p_submission_sequen.Hosting.{Libp2p}
use libp2p_submission_sequen.Relayer.{
  Platform, identity, choose_key, generate_and_save_key, private_key_to_string,
  handle_connection_established,
}
use libp2p_submission_sequen.Relayer.Connections.{
  Notice, established, closed, count_after, count_after-difference,
}
use libp2p_submission_sequen.Relayer.Races.{
  Event, loads, stores, race_step, race, taken_out, idle, Within, race-Within,
}
use libp2p_submission_sequen.Relayer.Restart.{IsLawful, choose_key_restored}
use libp2p_submission_sequen.Startup.{Machine, serving, main}
use libp2p_submission_sequen.Startup.Serving.{CanServe, main_lem}

abbrev notices : List Notice
notices = closed ∷ established ∷ closed ∷ established ∷ closed ∷ []

-- The count is below zero at the end.
count_after-difference_example : count_after notices (pos 0) ≡ negsuc 0
count_after-difference_example = count_after-difference notices (omega arith) (omega arith)

-- Two connections at a time: both callbacks read the count before one of them stores it.
abbrev events : List Event
events = loads established ∷ loads established ∷ stores 0 ∷ stores 0 ∷ []

one_is_lost : (race events idle).count ≡ pos 1
unfolding race race_step taken_out handle_connection_established
one_is_lost = refl

race-Within_example : Within 2 0 (race events idle).count
race-Within_example = race-Within events (omega arith) (omega arith)

abbrev unmarshal : Bytes → Result Bytes Bytes
unmarshal [] = err (codes "EOF")
unmarshal (c ∷ k) = ok k

-- A key is its bytes behind a tag, and the text of some bytes is themselves.
abbrev platform : Platform Bytes
platform = record {
  generate = ok (codes "secret");
  marshal = λ k. (b'k' ∷ k, none);
  unmarshal = unmarshal;
  encode = λ b. b;
  decode = λ b. ok b;
  write_file = λ b. none;
}

platform-IsLawful : IsLawful platform
platform-IsLawful = record {
  decode-encode = λ b. refl;
  encode_nonempty = λ b h. h;
  unmarshal-marshal = λ k e. (refl, λ h. cc);
}

first_start : choose_key platform [] ≡ identity (some (codes "secret")) (codes "ksecret" ∷ [])
unfolding choose_key generate_and_save_key private_key_to_string
first_start = refl

choose_key_restored_example :
    (text : Bytes) × (choose_key platform [] ≡ identity (some (codes "secret")) (text ∷ []))
    × (choose_key platform text ≡ identity (some (codes "secret")) [])
choose_key_restored_example =
    choose_key_restored platform (codes "secret") platform-IsLawful refl refl refl

-- Objects are numbers, and a host always starts.
abbrev libp2p : Libp2p Bytes ℕ
libp2p = record {
  new_multiaddr = λ text. ok (length text);
  new_conn_manager = λ low high grace. some low;
  default_limits = 1;
  set_default_service_limits = λ n. n;
  auto_scale = λ n. n + 1;
  getrlimit = err (codes "EPERM");
  unlimited = negsuc 0;
  build = λ config n. n;
  new_fixed_limiter = λ n. n;
  new_resource_manager = λ n. some n;
  tls = codes "/tls/1.0.0";
  noise = codes "/noise";
  yamux = codes "/yamux/1.0.0";
  new_host = λ options. none;
  dht = record {
    new_dht = none;
    bootstrap = none;
    default_bootstrap_peers = 1 ∷ 2 ∷ [];
    addr_info = λ n. some (record { id = n ∷ []; addrs = [] });
    connect = λ peer. some (codes "dial backoff");
  };
}

-- Every variable is set to a digit.
abbrev machine : Machine Bytes ℕ
machine = record {
  getenv = λ key. codes "7";
  dial = λ url. none;
  platform = platform;
  libp2p = libp2p;
}

main_lem_example : (main machine ≡ serving (codes "/collect")) ↔ CanServe machine
main_lem_example = main_lem machine
