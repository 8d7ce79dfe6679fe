-- ===== src/Tests/Data.antt =====
-- A small repository: one memory, JSON that holds nothing else, and Git with one pending commit.
use git_memo.Base.{true, false, Option, none, some, List, [], ◌∷◌, if◌then◌else◌}
use git_memo.Base.Int.{pos}
use git_memo.Base.Text.{Text, text, ◌==◌}
use git_memo.Base.Result.{Result, ok, err}
use git_memo.Memory.{Memory}
use git_memo.Memory.Fields.{TimeFormat}
use git_memo.Memory.Decode.{
  Json, scalar, array, object, no_items, item, Members, no_members, member, MemoryJson,
  end_of_input,
}
use git_memo.Repository.Message.{AppliedOperation, parse_applied_operation}
use git_memo.Repository.Git.{PublishError, failed}
use git_memo.Service.Store.{Files, ProposedDocument, Platform}
use git_memo.Service.Operation.{ApplyMutationRequest}
use git_memo.Service.Apply.{Writer, Tools}

abbrev pub one_id : Text
one_id = text "0123abcd-0123-4123-8123-0123456789ab"

abbrev pub one_path : Text
one_path = text "memories/general/tea--0123abcd.md"

abbrev pub one_sidecar : Text
one_sidecar = text "memories/general/tea--0123abcd.json"

abbrev pub one_memory : Memory
one_memory = record {
  schema_version = pos 1;
  id = one_id;
  title = text "Tea";
  kind = text "fact";
  lifecycle = text "active";
  summary = text "Green.";
  projects = [];
  topics = text "tea" ∷ [];
  tags = [];
  aliases = [];
  entities = [];
  importance = text "normal";
  temporal = record {
    created_at = text "t";
    updated_at = text "t";
    effective_from = none;
    effective_until = none;
  };
  provenance = record {
    basis = text "user_stated";
    confidence = text "high";
    explicit_memory_request = true;
    sources =
        record { kind = text "conversation"; locator = text "c"; revision = none; note = none }
        ∷ [];
  };
  relationships = [];
  content_path = one_path;
  sensitivity = text "private";
  open_loop_status = none;
}

abbrev value : Json
value = scalar (text "v")

-- An object with members of these names and this value.
unfoldable pub members_named : List Text → Members → Members
members_named [] rest = rest
members_named (name ∷ names) rest = member name value (members_named names rest)

abbrev source_members : Members
source_members =
    members_named (text "kind" ∷ text "locator" ∷ text "revision" ∷ text "note" ∷ []) no_members

abbrev root : Members
root =
    member (text "temporal")
      (object (
        members_named
          (text "created_at"
            ∷ text "updated_at"
            ∷ text "effective_from"
            ∷ text "effective_until"
            ∷ [])
          no_members))
      (member (text "provenance")
        (object (
          member (text "sources") (array (item (object source_members) no_items)) (
            members_named (text "basis" ∷ text "confidence" ∷ text "explicit_memory_request" ∷ [])
              no_members)))
        (members_named
          (text "schema_version"
            ∷ text "id"
            ∷ text "title"
            ∷ text "type"
            ∷ text "lifecycle"
            ∷ text "summary"
            ∷ text "projects"
            ∷ text "topics"
            ∷ text "tags"
            ∷ text "aliases"
            ∷ text "entities"
            ∷ text "importance"
            ∷ text "relationships"
            ∷ text "content_path"
            ∷ text "sensitivity"
            ∷ [])
          no_members))

-- Every sidecar reads as that one memory.
abbrev pub one_json : MemoryJson
one_json = record {
  parse = λ s. some (object root);
  decode_strict = λ s. some (one_memory, end_of_input);
  encode = λ m. some (text "{}");
}

abbrev pub any_time : TimeFormat
any_time = record { rfc3339 = λ s. some 0; iso_date = λ s. some 0 }

abbrev pub one_platform : Platform
one_platform = record {
  json = one_json;
  time = any_time;
  lstat_fails = λ path files. false;
  mkdir_fails = λ path files. false;
  write_fails = λ path files. false;
  remove_fails = λ path files. false;
}

abbrev pub one_file : Files
one_file = (one_path, text "# Tea") ∷ (one_sidecar, text "{}") ∷ (text "README.md", text "hi") ∷ []

abbrev pub two_proposal : ProposedDocument
two_proposal = record {
  memory = record one_memory {
    id = text "4567abcd-0123-4123-8123-0123456789ab";
    title = text "Milk";
  };
  markdown = text "# Milk";
}

-- A repository as a worktree, a head, the operations of its commits and a commit to be published.
pub record World : Type 0 where
  pub head : Text
  pub files : Files
  pub operations : List AppliedOperation
  pub pending : Option (Files × Text)

unfoldable pub find_operation : List AppliedOperation → Text → Option AppliedOperation
find_operation [] key = none
find_operation (a ∷ rest) key = if a.idempotency_key == key then some a else find_operation rest key

unfoldable pub record_operation :
    Option AppliedOperation → List AppliedOperation → List AppliedOperation
record_operation none rest = rest
record_operation (some a) rest = a ∷ rest

unfoldable pub publish_pending :
    Option (Files × Text) → Text → World → Result PublishError (Unit {0}) × World
unfolding record_operation
publish_pending none revision w = (err failed, w)
publish_pending (some (files, message)) revision w = (
  ok tt,
  record {
    head = revision;
    files = files;
    operations = record_operation (parse_applied_operation revision message) w.operations;
    pending = none;
  },
)

abbrev pub one_writer : Writer World
one_writer = record {
  find_applied_operation = λ w key. some (find_operation w.operations key);
  state = λ w.
      some (record { revision = w.head; branch = text "main"; clean = true; dirty_entries = [] });
  root_files = λ w. w.files;
  begin_transaction = λ w revision. (some w.files, w);
  commit = λ w files message. (some (text "c2"), record w { pending = some (files, message) });
  close = λ w. (true, w);
  publish = λ w branch expected revision. publish_pending w.pending revision w;
}

abbrev pub one_digest : Text
one_digest = text "0123456789abcdef0123456789abcdef0123456789abcdef0123456789abcdef"

abbrev pub two_digest : Text
two_digest = text "f123456789abcdef0123456789abcdef0123456789abcdef0123456789abcdef"

-- A digest that tells withdrawals from the other operations.
abbrev pub one_tools : Tools
one_tools = record {
  digest =
      λ payload. some (if payload.operation == text "withdraw" then one_digest else two_digest);
  write_index = λ files. some files;
  has_errors = λ files. false;
}

abbrev pub one_world : World
one_world = record { head = text "c1"; files = one_file; operations = []; pending = none }

abbrev pub withdraw_request : ApplyMutationRequest
withdraw_request = record {
  expected_revision = text "c1";
  idempotency_key = text "k1";
  operation = text "withdraw";
  mutation_time = text "now";
  target_id = one_id;
  proposed = none;
}

abbrev pub create_request : ApplyMutationRequest
create_request = record {
  expected_revision = text "c1";
  idempotency_key = text "k2";
  operation = text "create";
  mutation_time = text "now";
  target_id = [];
  proposed = some two_proposal;
}
