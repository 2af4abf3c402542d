-- ===== src/SkillSource/Examples.antt =====
-- A skill from a host with a public address, and the theorem on it.
use docsclaw.Base.{ℕ, suc, ◌≤◌, bytes, ◌==◌, none, List, [], ◌∷◌, false, ◌≡◌, refl, ok, All, length}
use docsclaw.SkillSource.{
  Address, SkillUrl, Net, Skill, fetched, in_network, reject_addresses, reject_private_host,
  skill_name_from_url, admitted, on_fetched, pull,
}
use docsclaw.SkillSource.Public.{IsNotPrivate, IsResolved, pull-IsNotPrivate}
use docsclaw.Peers.Card.{read_limited}

abbrev address : Address
address = record {
  text = bytes "93.184.216.34";
  is_loopback = false;
  is_link_local_unicast = false;
  is_link_local_multicast = false;
  lies_in = λ _. false;
}

abbrev net : Net ℕ
net = record {
  parse_url = λ s. ok (record { scheme = bytes "https"; hostname = bytes "example.com"; text = s });
  parse_ip = λ _. none;
  lookup_ip = λ _ _. ok (address ∷ []);
  get = λ _ w. (fetched 200 (bytes "text") none, suc w);
  quoted = λ s. s;
  path_base = λ _. bytes "tea.md";
  path_dir = λ _. bytes "skills";
  path_ext = λ _. bytes ".md";
  equal_fold = λ s t. s == t;
}

abbrev skill : Skill
skill = record { name = skill_name_from_url net (bytes "u"); content = bytes "text" }

pulled : (pull net 1048576 false (bytes "u") 0).0 ≡ ok skill
unfolding pull admitted reject_private_host reject_addresses in_network on_fetched read_limited
    bytes ◌==◌
pulled = refl

pull-IsNotPrivate_example :
    (parsed : SkillUrl) × (ips : List Address) × (net.parse_url (bytes "u") ≡ ok parsed)
    × IsResolved net parsed.hostname 0 ips
    × All IsNotPrivate ips
    × (length skill.content ≤ 1048576)
pull-IsNotPrivate_example = pull-IsNotPrivate net 1048576 (bytes "u") 0 skill pulled
