-- ===== src/Manifests/Containerfile.antt =====
-- pkg/manifest/containerfile.go: the Containerfile of an agent's image.
use docsclaw.Base.{
  ℕ, Str, bytes, ◌==◌, decimal, concat, join, List, [], ◌∷◌, ◌++◌, not, Bool, if◌then◌else◌,
}
use docsclaw.Catalog.{ToolCatalog, highest_tier, max_risk_score, package_names}
use docsclaw.Manifests.{AgentManifest, merge_with_core}

pub record ContainerfileData : Type 0 where
  pub go_builder_image : Str
  pub base_image : Str
  pub tool_builder_image : Str
  pub has_tool_builder : Bool
  pub agent_name : Str
  pub installed_csv : Str
  pub highest_tier : Str
  pub risk_score : ℕ
  pub package_list : Str

unfoldable pub header_lines : ContainerfileData → List Str
header_lines d =
    bytes "FROM "
    ∷ d.go_builder_image
    ∷ bytes " AS builder\n"
    ∷ bytes "\n"
    ∷ bytes "WORKDIR /app\n"
    ∷ bytes "\n"
    ∷ bytes "COPY go.mod go.sum ./\n"
    ∷ bytes "RUN go mod download\n"
    ∷ bytes "\n"
    ∷ bytes "COPY . .\n"
    ∷ bytes "RUN CGO_ENABLED=0 GOOS=linux go build -o /docsclaw ./cmd/docsclaw\n"
    ∷ bytes "\n"
    ∷ bytes "FROM "
    ∷ d.base_image
    ∷ bytes "\n"
    ∷ bytes "\n"
    ∷ bytes "LABEL io.docsclaw.tools/installed=\""
    ∷ d.installed_csv
    ∷ bytes "\"\n"
    ∷ bytes "LABEL io.docsclaw.tools/tier=\""
    ∷ d.highest_tier
    ∷ bytes "\"\n"
    ∷ bytes "LABEL io.docsclaw.tools/risk-score=\""
    ∷ decimal d.risk_score
    ∷ bytes "\"\n"
    ∷ bytes "LABEL io.docsclaw.tools/agent-name=\""
    ∷ d.agent_name
    ∷ bytes "\"\n"
    ∷ bytes "\n"
    ∷ bytes "USER root\n"
    ∷ []

pub builder_lines : ContainerfileData → List Str
builder_lines d =
    bytes "# Adding tools to the minimal hardened image expands its attack surface.\n"
    ∷ bytes "# Only add what is strictly necessary for runtime operation.\n"
    ∷ bytes "# Review each addition with your security team.\n"
    ∷ bytes "RUN --mount=type=bind,from="
    ∷ d.tool_builder_image
    ∷ bytes ",target=/builder \\\n"
    ∷ bytes "    LD_LIBRARY_PATH=/builder/lib64:/builder/usr/lib64 \\\n"
    ∷ bytes "    RPM_CONFIGDIR=/builder/usr/lib/rpm \\\n"
    ∷ bytes "    /builder/usr/bin/dnf install -y \\\n"
    ∷ bytes "    --installroot=/ \\\n"
    ∷ bytes "    --setopt=reposdir=/builder/etc/yum.repos.d \\\n"
    ∷ bytes "    --setopt=install_weak_deps=False \\\n"
    ∷ bytes "    --setopt=tsflags=nodocs \\\n"
    ∷ bytes "    "
    ∷ d.package_list
    ∷ bytes "\n"
    ∷ []

pub footer_lines : List Str
footer_lines =
    bytes "RUN mkdir -p /etc/docsclaw\n"
    ∷ bytes "USER 65532\n"
    ∷ bytes "\n"
    ∷ bytes "WORKDIR /app\n"
    ∷ bytes "COPY --from=builder /docsclaw /app/docsclaw\n"
    ∷ bytes "COPY tools.json /etc/docsclaw/tools.json\n"
    ∷ bytes "\n"
    ∷ bytes "EXPOSE 8000\n"
    ∷ bytes "\n"
    ∷ bytes "ENTRYPOINT [\"/app/docsclaw\"]\n"
    ∷ bytes "CMD [\"serve\"]\n"
    ∷ []

-- `containerfileTmpl`, with what its trim markers leave
unfoldable pub rendered : ContainerfileData → Str
unfolding header_lines builder_lines footer_lines
rendered d =
    concat
      (header_lines d ++ ((if d.has_tool_builder then builder_lines d else []) ++ footer_lines))

unfoldable pub generate_containerfile : (List Str → List Str) → AgentManifest → ToolCatalog → Str
unfolding rendered merge_with_core
generate_containerfile sort_strings m cat =
    let all_tools = sort_strings (merge_with_core sort_strings m.tools cat) in
    rendered (record {
      go_builder_image =
          if m.base.go_builder == []
          then bytes "registry.access.redhat.com/hi/go:latest"
          else m.base.go_builder;
      base_image = m.base.image;
      tool_builder_image = m.base.tool_builder;
      has_tool_builder = not (m.base.tool_builder == []);
      agent_name = m.name;
      installed_csv = join (bytes ",") all_tools;
      highest_tier = highest_tier cat all_tools;
      risk_score = max_risk_score cat all_tools;
      package_list = join (bytes " ") (sort_strings (package_names cat all_tools (bytes "dnf")));
    })
