-- ===== src/Proof/Client.antt =====
-- `ProofServerClient` of src/noxipher/proof/client.py. What the k-th sending of a request gives,
-- and the parser of JSON, are parameters.
use noxipher.Prelude.{
  ℕ, Bool, true, false, not, ◌==◌, ◌&&◌, ltb, leb, if◌then◌else◌, List, [], ◌∷◌, ◌++◌, codes,
  Option, none, some,
}
use noxipher.Core.Exceptions.{
  Result, ok, err, ◌>>=◌, ◌>>◌, raise_if, assertion_error, http_error, proof_error,
  not_implemented_error,
}
use noxipher.Node.Json.{Json, null, text, boolean, number, array, object, nil, end}
use noxipher.Wallet.Hex.{hex}
use noxipher.Indexer.Client.{retry}

-- The requests, with the address that they go to; `inputs` are the private and the public ones.
pub data ProofRequest {ℓ} (I : Type ℓ) : Type ℓ where
  get_url : (url : List ℕ) → ProofRequest I
  post_prove : (url circuit_id proving_key : List ℕ) (inputs : I) → ProofRequest I

pub record HttpResponse : Type 0 where
  pub status_code : ℕ
  pub content : List ℕ

-- `__aexit__` closes the HTTP client and keeps it.
pub record ProofServerClient : Type 0 where
  pub url : List ℕ
  pub opened : Bool

-- `s.rstrip(c)`
unfoldable pub rstrip : ℕ → List ℕ → List ℕ
rstrip c [] = []
rstrip c (x ∷ xs) =
    let rest = rstrip c xs in
    elim rest [ [] ↦ (if x == c then [] else x ∷ []) | y ∷ ys ↦ x ∷ y ∷ ys ]

unfoldable pub new_proof_client : List ℕ → ProofServerClient
new_proof_client proof_server_url = record { url = rstrip b'/' proof_server_url; opened = false }

unfoldable pub enter_proof_client : ProofServerClient → ProofServerClient
enter_proof_client client = record client { opened = true }

unfoldable pub exit_proof_client : ProofServerClient → ProofServerClient
exit_proof_client client = client

abbrev pub is_success : ℕ → Bool
is_success status_code = leb 200 status_code && ltb status_code 300

-- httpx raises HTTPStatusError for every status but those of success.
unfoldable pub raise_for_status : HttpResponse → Result (Unit {0})
raise_for_status response = raise_if (not (is_success response.status_code)) http_error

-- `except httpx.HTTPError as e: raise ProofError`
unfoldable pub wrap_http_error {ℓ} : {A : Type ℓ} → Result A → Result A
wrap_http_error (err http_error) = err proof_error
wrap_http_error result = result

-- Python's truth of a value.
unfoldable pub is_true : Json → Bool
is_true null = false
is_true (text []) = false
is_true (boolean b) = b
is_true (number n) = not (n == 0)
is_true (array nil) = false
is_true (object end) = false
is_true value = true

module _ {ℓ} {I : Type ℓ} (send : ℕ → ProofRequest I → Result HttpResponse)
    (client : ProofServerClient) where
  -- A request and the check of its status, inside the `try`, and what is made of the response.
  unfoldable pub attempt_request {κ} :
      {A : Type κ} → (HttpResponse → Result A) → ProofRequest I → ℕ → Result A
  attempt_request read request k = do
    raise_if (not client.opened) assertion_error
    wrap_http_error (send k request >>= λ response. raise_for_status response >> read response)

  unfoldable pub health_request : ProofRequest I
  health_request = get_url (client.url ++ codes "/health")

  unfoldable pub health : (List ℕ → Result Json) → Result Json
  health json_of = attempt_request (λ response. json_of response.content) health_request 0

  -- One attempt of `prove`, and the attempts of `@retry`.
  unfoldable pub prove_request : List ℕ → List ℕ → I → ProofRequest I
  prove_request circuit_id proving_key inputs =
      post_prove (client.url ++ codes "/prove") circuit_id (hex proving_key) inputs

  unfoldable pub prove : List ℕ → List ℕ → I → Result (List ℕ)
  prove circuit_id proving_key inputs =
      retry 2
        (attempt_request (λ response. ok response.content)
          (prove_request circuit_id proving_key inputs))
        0

  unfoldable pub get_proving_key : List ℕ → Result (List ℕ)
  get_proving_key circuit_id =
      attempt_request (λ response. ok response.content)
        (get_url (client.url ++ (codes "/keys/" ++ circuit_id))) 0

-- `ProofVerifier.verify` of src/noxipher/proof/verifier.py.
unfoldable pub verify_proof {ℓ} : {I : Type ℓ} → List ℕ → I → Result Bool
verify_proof proof_bytes public_inputs = err not_implemented_error

-- `SelectiveDisclosure` of src/noxipher/proof/disclosure.py: the fields, in order.
unfoldable pub disclosed_fields : Option (List (List ℕ)) → List (List ℕ)
disclosed_fields none = []
disclosed_fields (some fields) = fields
