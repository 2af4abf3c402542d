-- ===== src/Manifests/Kubernetes.antt =====
-- pkg/manifest/k8s.go: the objects that deploy an agent, as text.
use docsclaw.Base.{
  ℕ, suc, zero, Str, bytes, ◌==◌, concat, join, map, Map, Option, none, some, List, [], ◌∷◌, ◌++◌,
  Bool, true, false, if◌then◌else◌,
}
use docsclaw.Text.{split}
use docsclaw.Manifests.{AgentManifest, build_agent_config_yaml}
use docsclaw.Manifests.Deployment.{service_account, deployment_lines}

-- The secret is `none` where the source leaves its text empty.
pub record K8sOutput : Type 0 where
  pub config_map : Str
  pub deployment : Str
  pub service : Str
  pub service_account : Str
  pub secret : Option Str

spaces : ℕ → Str
spaces zero = []
spaces (suc n) = 32 ∷ spaces n

-- Each line that is not empty moves to the right.
pub nindent : ℕ → Str → Str
unfolding spaces
nindent n text =
    join (bytes "\n") (map (λ line. if line == [] then [] else spaces n ++ line) (split 10 text))

config_map_lines : AgentManifest → List Str
unfolding nindent
config_map_lines m =
    bytes "apiVersion: v1\n"
    ∷ bytes "kind: ConfigMap\n"
    ∷ bytes "metadata:\n"
    ∷ bytes "  name: "
    ∷ m.name
    ∷ bytes "-config\n"
    ∷ bytes "  labels:\n"
    ∷ bytes "    app: "
    ∷ m.name
    ∷ bytes "\n"
    ∷ bytes "data:\n"
    ∷ bytes "  system-prompt.txt: |\n"
    ∷ nindent 4 (m.prompt_text)
    ∷ bytes "\n"
    ∷ bytes "  agent-config.yaml: |\n"
    ∷ nindent 4 (build_agent_config_yaml m)
    ∷ bytes "\n"
    ∷ []

service_lines : AgentManifest → List Str
service_lines m =
    bytes "apiVersion: v1\n"
    ∷ bytes "kind: Service\n"
    ∷ bytes "metadata:\n"
    ∷ bytes "  name: "
    ∷ m.name
    ∷ bytes "\n"
    ∷ bytes "  labels:\n"
    ∷ bytes "    app: "
    ∷ m.name
    ∷ bytes "\n"
    ∷ bytes "spec:\n"
    ∷ bytes "  selector:\n"
    ∷ bytes "    app: "
    ∷ m.name
    ∷ bytes "\n"
    ∷ bytes "  ports:\n"
    ∷ bytes "  - name: http\n"
    ∷ bytes "    port: 8000\n"
    ∷ bytes "    targetPort: http\n"
    ∷ bytes "    protocol: TCP\n"
    ∷ bytes "  - name: health\n"
    ∷ bytes "    port: 8100\n"
    ∷ bytes "    targetPort: health\n"
    ∷ bytes "    protocol: TCP\n"
    ∷ []

service_account_lines : AgentManifest → List Str
service_account_lines m =
    bytes "apiVersion: v1\n"
    ∷ bytes "kind: ServiceAccount\n"
    ∷ bytes "metadata:\n"
    ∷ bytes "  name: "
    ∷ service_account m
    ∷ bytes "\n"
    ∷ bytes "  labels:\n"
    ∷ bytes "    app: docsclaw\n"
    ∷ []

-- The secrets are encoded, and in the order of their names as the template walks them.
secret_lines : AgentManifest → Map Str → List Str
secret_lines m secrets =
    bytes "apiVersion: v1\n"
      ∷ bytes "kind: Secret\n"
      ∷ bytes "metadata:\n"
      ∷ bytes "  name: "
      ∷ m.name
      ∷ bytes "-secrets\n"
      ∷ bytes "  labels:\n"
      ∷ bytes "    app: "
      ∷ m.name
      ∷ bytes "\n"
      ∷ bytes "type: Opaque\n"
      ∷ bytes "data:"
      ∷ map (λ entry. bytes "\n  " ++ (entry.0 ++ (bytes ": " ++ entry.1))) secrets
    ++ bytes "\n" ∷ []

pub encode_secrets : (Str → Str) → Map Str → Map Str
encode_secrets encode_base64 [] = []
encode_secrets encode_base64 ((k, v) ∷ secrets) =
    (k, encode_base64 v) ∷ encode_secrets encode_base64 secrets

has_any : Map Str → Bool
has_any [] = false
has_any (s ∷ secrets) = true

-- `by_key` puts a map in the order of its keys; the templates do not fail.
pub generate_k8s : (Str → Str) → (Map Str → Map Str) → AgentManifest → Map Str → K8sOutput
unfolding config_map_lines service_lines service_account_lines secret_lines encode_secrets has_any
generate_k8s encode_base64 by_key m secrets = record {
  config_map = concat (config_map_lines m);
  deployment = concat (deployment_lines m (has_any secrets));
  service = concat (service_lines m);
  service_account = concat (service_account_lines m);
  secret =
      if has_any secrets
      then some (concat (secret_lines m (by_key (encode_secrets encode_base64 secrets))))
      else none;
}
