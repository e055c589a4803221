-- ===== src/Tests/Fixtures.antt =====
-- The cluster of `Example()` in internal/core/runtime.go, and a Node that reports.
use Prim.Native.String.{◌++◌ as str_append}
use runner_loom.Store.Identity.{Pki}
use runner_loom.Base.{true, false, String, none, some, [], ◌∷◌, Result, ok, err}
use runner_loom.Base.Int64.{pos}
use runner_loom.Config.{Config, Image, Node, Pool, Reservation}
use runner_loom.Instance.{Instance, State, Observation}
use runner_loom.Store.{Store}

abbrev pub value {ℓ} : {A : Type ℓ} → Result A → A → A
value (ok a) d = a
value (err e) d = d

abbrev pub digest : String
digest = "sha256:0000000000000000000000000000000000000000000000000000000000000000"

abbrev pub ubuntu : Image
ubuntu = record { name = "ubuntu-24"; digest = digest; minimum_root_gib = pos 20 }

abbrev pub node_a : Node
node_a = record {
  name = "node-a";
  budget = record { cpu = pos 14; memory = pos 24576; disk = pos 300 };
  local_ceiling = record { cpu = pos 14; memory = pos 24576; disk = pos 300 };
  labels = [];
  allowed_pools = "linux-lite" ∷ "linux-heavy" ∷ [];
}

abbrev pub lite : Pool
lite = record {
  name = "linux-lite";
  runner_name = "home-linux-lite";
  image = "ubuntu-24";
  vcpu = pos 4;
  memory_mib = pos 4096;
  overhead_mib = pos 512;
  root_gib = pos 20;
  scratch_gib = pos 0;
  disk_overhead_gib = pos 2;
  max_runners = pos 3;
  warm_idle = pos 0;
  execution_minutes = pos 120;
  node_selector = [];
  node_name = "";
  enabled = true;
  tasks = false;
}

abbrev pub heavy : Pool
heavy = record lite {
  name = "linux-heavy";
  runner_name = "home-linux-heavy";
  vcpu = pos 8;
  memory_mib = pos 8192;
  root_gib = pos 40;
  max_runners = pos 1;
  execution_minutes = pos 360;
}

abbrev pub reserved : Reservation
reserved = record { name = "heavy-reserved"; node = "node-a"; pool = "linux-heavy"; slots = pos 1 }

abbrev pub home : Config
home = record {
  api_version = "runnerloom/v1alpha1";
  name = "home";
  github = record {
    url = "https://github.com/example-org";
    runner_group_id = pos 1;
    credential_file = "/var/lib/runnerloom/controller/github-credentials.json";
    allowed_repositories = "example-org/private-app" ∷ [];
  };
  images = ubuntu ∷ [];
  nodes = node_a ∷ [];
  pools = lite ∷ heavy ∷ [];
  reservations = reserved ∷ [];
}

abbrev pub observation : Observation
observation = record {
  node = "node-a";
  boot_id = "boot";
  sequence = pos 1;
  seen = 1000;
  ready = true;
  drained = false;
  isolation = true;
  ceiling = node_a.local_ceiling;
  free_disk_gib = pos 500;
  digests = digest ∷ [];
  instances = [];
  error = "";
}

abbrev pub empty_store : Store
empty_store = record {
  settings = none;
  plans = [];
  instances = [];
  nodes = [];
  demand = [];
  inbox = [];
  audit = [];
  tasks = [];
  clients = [];
  invites = [];
  enrollments = [];
  identities = [];
}

abbrev pub home_store : Store
home_store = record empty_store {
  settings = some (record { revision = pos 1; payload = home });
  nodes = record { name = "node-a"; payload = observation; drained = false } ∷ [];
}

abbrev pub no_instance : Instance
no_instance = record {
  id = "";
  request_id = "";
  node = "";
  pool = lite;
  image = ubuntu;
  state = State.reserved;
  reservation = "";
  held = record { cpu = pos 0; memory = pos 0; disk = pos 0 };
  runner_id = pos 0;
  outcome = "";
  created = 0;
  deadline = 0;
  updated = 0;
  jit_ready = false;
  task = "";
}

-- Certificates whose hash is their text; a signature names the cluster and the Node.
abbrev pub no_pki : Pki
no_pki = record {
  parse_csr = λ csr. some csr;
  sign = λ csr cluster name. ok (str_append csr name);
  hash = λ text. text;
}
