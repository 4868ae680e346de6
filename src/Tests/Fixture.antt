-- ===== src/Tests/Fixture.antt =====
-- A runtime, a cache and tables for the tests.
use text.Mathlib.Text.{starts_with}
use dropsort.Prelude.{◌+◌, String, true, false, refl, none, some, [], ◌∷◌, format, if◌then◌else◌}
use dropsort.Prelude.Float.{scaled}
use dropsort.Domain.{Role, admin, reviewer, auditor, complete, Uuid}
use dropsort.Db.{Db, User, Batch, Prediction}
use dropsort.Db.Invariant.{IsValid}
use dropsort.Session.{Env}
use dropsort.Service.{World, Clear}

abbrev pub test_env : Env
test_env = record {
  uuid4 = λ n. 1000 + n;
  now = λ n. 50 + n;
  token_hex = λ n. "token";
  argon2 = λ n secret. format ("argon2:" ∷ secret ∷ []);
  fails = λ n. false;
}

-- A key is deleted if it extends the namespace by a colon and more.
abbrev pub clear_prefix : Clear
clear_prefix namespace cache key =
    if starts_with key (format (namespace ∷ ":" ∷ [])) then none else cache key

abbrev pub account : Uuid → String → Role → User
account id email role = record {
  id = id;
  email = email;
  hashed_password = "hash";
  is_active = true;
  role = role;
  created_at = id;
  deleted_at = none;
  original_email = none;
}

abbrev pub root : User
root = account 1 "admin@example.com" admin

abbrev pub jane : User
jane = account 2 "jane@example.com" reviewer

abbrev pub joe : User
joe = account 3 "joe@example.com" auditor

abbrev pub batch : Batch
batch = record {
  id = 20;
  external_id = some "scan-1";
  state = complete;
  created_at = 5;
  updated_at = 6;
}

abbrev pub unsure : Prediction
unsure = record {
  id = 30;
  batch_id = 20;
  filename = "a.tif";
  content_sha256 = "aa";
  minio_input_key = "incoming/scan-1/a.tif";
  minio_overlay_key = none;
  label = "memo";
  top1_confidence = scaled 1 1;
  top5_json = [];
  relabel_label = none;
  relabel_actor_id = none;
  relabel_at = none;
  created_at = 6;
}

abbrev pub tables : Db
tables = record {
  users = root ∷ jane ∷ joe ∷ [];
  casbin_rules = [];
  batches = batch ∷ [];
  predictions = unsure ∷ [];
  audit_log = [];
}

abbrev pub world : World
world = record {
  db = tables;
  cache = λ key. none;
  policy = [];
  objects = [];
  jobs = [];
  inbox = [];
  draws = 0;
}

pub tables-IsValid : IsValid tables
tables-IsValid = record {
  users = record {
    keyed = (refl, (refl, (refl, tt)));
    emails = (refl, (refl, (refl, tt)));
    retired = refl;
  };
  batches = record { keyed = (refl, tt); externals = (refl, tt) };
  predictions = record {
    keyed = (refl, tt);
    hashes = (refl, tt);
    in_batches = refl;
    actors = refl;
  };
  audit = record { keyed = tt; actors = refl };
}
