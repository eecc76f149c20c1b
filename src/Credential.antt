-- ===== src/Credential.antt =====
-- internal/domain/credential/credential.go: stored SSH credentials and their checks. Encrypted material
-- is a list of bytes; times are numbers, with 0 for Go's zero time.
use switch_manager.Base.{
  ℕ, ◌≡◌, not, ◌&&◌, List, ltb, ◌==◌, is_empty, Result, ok, err, ◌>>◌, fail_if, >>=-eq-ok, arith,
}
use switch_manager.Base.Text.{Text, is_blank}

pub data Kind : Type 0 where
  password ssh_private_key : Kind
  other_kind : Text → Kind

pub data CredentialError : Type 0 where
  id_required name_required username_required key_version_required : CredentialError
  unsupported_kind secret_required unexpected_key unexpected_passphrase : CredentialError
  key_required unexpected_secret bad_times : CredentialError

abbrev pub Checked : Type 0
Checked = Result CredentialError (Unit {0})

unfoldable pub kind_validate : Kind → Checked
kind_validate (other_kind t) = err unsupported_kind
kind_validate _ = ok tt

pub record Credential : Type 0 where
  pub id : Text
  pub name : Text
  pub kind : Kind
  pub username : Text
  pub encrypted_secret : List ℕ
  pub encrypted_private_key : List ℕ
  pub encrypted_passphrase : List ℕ
  pub key_version : Text
  pub created_at : ℕ
  pub updated_at : ℕ

-- The material that each kind needs and may not have.
unfoldable pub material_validate : Kind → List ℕ → List ℕ → List ℕ → Checked
material_validate password secret key passphrase = do
  fail_if (is_empty secret) secret_required
  fail_if (not (is_empty key)) unexpected_key
  fail_if (not (is_empty passphrase)) unexpected_passphrase
material_validate ssh_private_key secret key passphrase = do
  fail_if (is_empty key) key_required
  fail_if (not (is_empty secret)) unexpected_secret
material_validate (other_kind t) secret key passphrase = ok tt

unfoldable pub credential_validate : Credential → Checked
credential_validate c = do
  fail_if (is_blank c.id) id_required
  fail_if (is_blank c.name) name_required
  fail_if (is_blank c.username) username_required
  fail_if (is_blank c.key_version) key_version_required
  kind_validate c.kind
  material_validate c.kind c.encrypted_secret c.encrypted_private_key c.encrypted_passphrase
  fail_if (not (c.created_at == 0) && not (c.updated_at == 0) && ltb c.updated_at c.created_at)
      bad_times

material_validate-one :
    (k : Kind) (secret key passphrase : List ℕ)
    → kind_validate k ≡ ok tt
    → material_validate k secret key passphrase ≡ ok tt
    → is_empty secret ≡ not (is_empty key)
unfolding material_validate kind_validate
material_validate-one password secret key passphrase known h = ground (arith, h)
material_validate-one ssh_private_key secret key passphrase known h = ground (arith, h)
material_validate-one (other_kind t) secret key passphrase known h = ground (arith, known)

-- A credential that passes the checks has a password or a private key, and not both.
credential_validate-one :
    (c : Credential)
    → credential_validate c ≡ ok tt
    → is_empty c.encrypted_secret ≡ not (is_empty c.encrypted_private_key)
unfolding credential_validate
credential_validate-one c h =
    let (_, _, h1) = >>=-eq-ok (fail_if (is_blank c.id) id_required) _ h in
    let (_, _, h2) = >>=-eq-ok (fail_if (is_blank c.name) name_required) _ h1 in
    let (_, _, h3) = >>=-eq-ok (fail_if (is_blank c.username) username_required) _ h2 in
    let (_, _, h4) = >>=-eq-ok (fail_if (is_blank c.key_version) key_version_required) _ h3 in
    let (_, known, h5) = >>=-eq-ok (kind_validate c.kind) _ h4 in
    let (_, material, _) =
      >>=-eq-ok
        (material_validate c.kind c.encrypted_secret c.encrypted_private_key c.encrypted_passphrase)
        _ h5 in
    material_validate-one c.kind c.encrypted_secret c.encrypted_private_key c.encrypted_passphrase
      known material
