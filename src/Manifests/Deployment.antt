-- ===== src/Manifests/Deployment.antt =====
-- pkg/manifest/k8s.go: the template of the deployment.
use docsclaw.Base.{
  ℕ, Str, bytes, ◌==◌, decimal, concat, map, List, [], ◌∷◌, ◌++◌, not, eqb, Bool, ◌||◌,
  if◌then◌else◌,
}
use docsclaw.Manifests.{AgentManifest, SkillRef, ResourceValues, DeployConfig}

agent_image : AgentManifest → Str
agent_image m = if m.deploy.image == [] then m.base.image else m.deploy.image

pub service_account : AgentManifest → Str
service_account m =
    if m.deploy.service_account == [] then bytes "docsclaw-agent" else m.deploy.service_account

replicas : AgentManifest → ℕ
replicas m = if eqb m.deploy.replicas 0 then 1 else m.deploy.replicas

-- The start of the deployment, up to what depends on the secrets.
deployment_head : AgentManifest → List Str
unfolding agent_image service_account replicas
deployment_head m =
    bytes "apiVersion: apps/v1\n"
    ∷ bytes "kind: Deployment\n"
    ∷ bytes "metadata:\n"
    ∷ bytes "  name: "
    ∷ m.name
    ∷ bytes "\n"
    ∷ bytes "  labels:\n"
    ∷ bytes "    app: "
    ∷ m.name
    ∷ bytes "\n"
    ∷ bytes "spec:\n"
    ∷ bytes "  replicas: "
    ∷ decimal (replicas m)
    ∷ bytes "\n"
    ∷ bytes "  selector:\n"
    ∷ bytes "    matchLabels:\n"
    ∷ bytes "      app: "
    ∷ m.name
    ∷ bytes "\n"
    ∷ bytes "  template:\n"
    ∷ bytes "    metadata:\n"
    ∷ bytes "      labels:\n"
    ∷ bytes "        app: "
    ∷ m.name
    ∷ bytes "\n"
    ∷ bytes "    spec:\n"
    ∷ bytes "      serviceAccountName: "
    ∷ service_account m
    ∷ bytes "\n"
    ∷ bytes "      securityContext:\n"
    ∷ bytes "        runAsNonRoot: true\n"
    ∷ bytes "      containers:\n"
    ∷ bytes "      - name: agent\n"
    ∷ bytes "        image: "
    ∷ agent_image m
    ∷ bytes "\n"
    ∷ bytes "        args:\n"
    ∷ bytes "        - serve\n"
    ∷ bytes "        ports:\n"
    ∷ bytes "        - name: http\n"
    ∷ bytes "          containerPort: 8000\n"
    ∷ bytes "          protocol: TCP\n"
    ∷ bytes "        - name: health\n"
    ∷ bytes "          containerPort: 8100\n"
    ∷ bytes "          protocol: TCP\n"
    ∷ bytes "        securityContext:\n"
    ∷ bytes "          allowPrivilegeEscalation: false\n"
    ∷ bytes "          readOnlyRootFilesystem: true\n"
    ∷ bytes "          runAsNonRoot: true\n"
    ∷ bytes "          capabilities:\n"
    ∷ bytes "            drop:\n"
    ∷ bytes "            - ALL\n"
    ∷ bytes "          seccompProfile:\n"
    ∷ bytes "            type: RuntimeDefault"
    ∷ []

secrets_part : AgentManifest → Bool → List Str
secrets_part m has_secrets =
    if has_secrets
    then bytes "\n"
      ∷ bytes "        envFrom:\n"
      ∷ bytes "        - secretRef:\n"
      ∷ bytes "            name: "
      ∷ m.name
      ∷ bytes "-secrets"
      ∷ []
    else []

skill_mount : SkillRef → Str
skill_mount s = concat (
    bytes "\n"
    ∷ bytes "        - name: skill-"
    ∷ s.name
    ∷ bytes "\n"
    ∷ bytes "          mountPath: /config/agent/skills/"
    ∷ s.name
    ∷ bytes "\n"
    ∷ bytes "          readOnly: true"
    ∷ [])

skill_volume : SkillRef → Str
skill_volume s = concat (
    bytes "\n"
    ∷ bytes "      - name: skill-"
    ∷ s.name
    ∷ bytes "\n"
    ∷ bytes "        image:\n"
    ∷ bytes "          reference: "
    ∷ s.image
    ∷ [])

-- A line for a value that is set.
value_line : Str → Str → Str
value_line front value = if value == [] then [] else front ++ value

values_part : Str → ResourceValues → Str
unfolding value_line
values_part header v =
    if not (v.cpu == []) || not (v.memory == [])
    then header
      ++ (value_line (bytes "\n            cpu: ") v.cpu
          ++ value_line (bytes "\n            memory: ") v.memory)
    else []

is_set : ResourceValues → Bool
is_set v = not (v.cpu == []) || not (v.memory == [])

resources_part : DeployConfig → Str
unfolding values_part is_set
resources_part d =
    if is_set d.requests || is_set d.limits
    then bytes "\n        resources:"
      ++ (values_part (bytes "\n          requests:") d.requests
          ++ values_part (bytes "\n          limits:") d.limits)
    else []

probes_part : List Str
probes_part =
    bytes "\n"
    ∷ bytes "        livenessProbe:\n"
    ∷ bytes "          httpGet:\n"
    ∷ bytes "            path: /health\n"
    ∷ bytes "            port: health\n"
    ∷ bytes "          initialDelaySeconds: 5\n"
    ∷ bytes "          periodSeconds: 10\n"
    ∷ bytes "        readinessProbe:\n"
    ∷ bytes "          httpGet:\n"
    ∷ bytes "            path: /ready\n"
    ∷ bytes "            port: health\n"
    ∷ bytes "          initialDelaySeconds: 3\n"
    ∷ bytes "          periodSeconds: 5\n"
    ∷ bytes "      volumes:\n"
    ∷ bytes "      - name: agent-config\n"
    ∷ bytes "        configMap:\n"
    ∷ []

pub deployment_lines : AgentManifest → Bool → List Str
unfolding deployment_head secrets_part skill_mount resources_part probes_part skill_volume
deployment_lines m has_secrets =
    deployment_head m
    ++ (secrets_part m has_secrets
        ++ (bytes "\n"
              ∷ bytes "        volumeMounts:\n"
              ∷ bytes "        - name: agent-config\n"
              ∷ bytes "          mountPath: /config/agent\n"
              ∷ bytes "          readOnly: true"
              ∷ map skill_mount m.skills
            ++ (bytes "\n"
                  ∷ bytes "        - name: tmp\n"
                  ∷ bytes "          mountPath: /tmp"
                  ∷ resources_part m.deploy
                  ∷ probes_part
                ++ (bytes "          name: " ∷ m.name ∷ bytes "-config" ∷ map skill_volume m.skills
                    ++ bytes "\n"
                      ∷ bytes "      - name: tmp\n"
                      ∷ bytes "        emptyDir: {}\n"
                      ∷ []))))
