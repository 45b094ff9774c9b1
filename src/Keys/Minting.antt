-- ===== src/Keys/Minting.antt =====
-- pkg/controller/scoped_key.go: the API key that the controller makes for each sandbox. Its plaintext
-- is in a Secret beside the sandbox, its record in the store of API keys.
pub mod Usable
use Prim.Native.String
use agenttier.Prelude.{
  String, Bool, true, false, not, Option, none, some, List, [], ◌∷◌, if◌then◌else◌, str_eq, ℕ,
}
use agenttier.Keys.{ApiKeyRecord}
use agenttier.Keys.Store.{
  Creation, created, already_exists, create_failed, Client, Json, create_key, get_api_key_by_hash,
}
use agenttier.Reconcile.Cleanup.{scoped_key_secret_name}
use agenttier.Reconcile.World.{Fetch, found, missing, unreachable}

-- What the source reads of the sandbox: its name and `CreatedBy.Sub`.
pub record SandboxOwner : Type 0 where
  pub name : String
  pub created_by : Option String

-- One call: what is drawn at random, whether the owner reference can be set, and the clock.
pub record Draw : Type 0 where
  pub random_key : Option String
  pub owner_set : Bool
  pub now : ℕ

pub data Minted : Type 0 where
  minted : String → Minted
  mint_failed : Minted

abbrev pub default_scoped_key_action_groups : List String
default_scoped_key_action_groups =
    "run-command" ∷ "files:read" ∷ "files:write" ∷ "ports" ∷ "agent:invoke" ∷ "agent:configure"
    ∷ "resume" ∷ "stop" ∷ []

abbrev pub owner_sub_of : SandboxOwner → String
owner_sub_of sb = elim sb.created_by [ none ↦ "" | some sub ↦ sub ]

abbrev pub scoped_record : SandboxOwner → String → ℕ → ApiKeyRecord
scoped_record sb hash now = record {
  key_hash = hash;
  user_id = owner_sub_of sb;
  email = "";
  name = String.◌++◌ "sandbox-scoped: " sb.name;
  scopes = [];
  allowed_namespaces = [];
  sandbox_id = sb.name;
  action_groups = default_scoped_key_action_groups;
  created_at = now;
  expires_at = none;
  last_used_at = none;
}

module _ (json : Json) (c : Client json.Raw) (hash_api_key : String → String) where
  open c use {World}

  -- The plaintext Secrets: the key "key" of the data, and the creation of one with a key.
  pub record Plaintexts : Type 0 where
    pub read : String → World → Fetch String × World
    pub make : String → String → World → Creation × World

  -- The answer of Create: a record that is there already is no error.
  abbrev pub written : Creation × World → Bool × World
  written (created, w) = (true, w)
  written (already_exists, w) = (true, w)
  written (create_failed, w) = (false, w)

  abbrev pub hashed_or_write :
      SandboxOwner → ℕ → String → Option ApiKeyRecord × World → Bool × World
  hashed_or_write sb now hash (some r, w) = (true, w)
  hashed_or_write sb now hash (none, w) =
      written (create_key json c hash (scoped_record sb hash now) w)

  unfoldable pub ensure_hashed_scoped_key_record : SandboxOwner → ℕ → String → World → Bool × World
  ensure_hashed_scoped_key_record sb now key w =
      let hash = hash_api_key key in hashed_or_write sb now hash (get_api_key_by_hash json c hash w)

  module _ (plain : Plaintexts) where
    abbrev pub reused : String → Bool × World → Minted × World
    reused name (true, w) = (minted name, w)
    reused name (false, w) = (mint_failed, w)

    abbrev pub made : String → Creation × World → Minted × World
    made name (created, w) = (minted name, w)
    made name (already_exists, w) = (minted name, w)
    made name (create_failed, w) = (mint_failed, w)

    abbrev pub publish : Draw → String → String → Bool × World → Minted × World
    publish draw name key (false, w) = (mint_failed, w)
    publish draw name key (true, w) =
        if not draw.owner_set then (mint_failed, w) else made name (plain.make name key w)

    abbrev pub mint : SandboxOwner → Draw → String → Option String → World → Minted × World
    mint sb draw name none w = (mint_failed, w)
    mint sb draw name (some key) w =
        publish draw name key (ensure_hashed_scoped_key_record sb draw.now key w)

    abbrev pub reuse_or_mint : SandboxOwner → Draw → String → Fetch String × World → Minted × World
    reuse_or_mint sb draw name (unreachable, w) = (mint_failed, w)
    reuse_or_mint sb draw name (missing, w) = mint sb draw name draw.random_key w
    reuse_or_mint sb draw name (found key, w) =
        if str_eq key ""
        then (mint_failed, w)
        else reused name (ensure_hashed_scoped_key_record sb draw.now key w)

    unfoldable pub ensure_sandbox_api_key_secret : SandboxOwner → Draw → World → Minted × World
    ensure_sandbox_api_key_secret sb draw w =
        let name = scoped_key_secret_name sb.name in reuse_or_mint sb draw name (plain.read name w)
