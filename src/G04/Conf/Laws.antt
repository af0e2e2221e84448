-- ===== src/G04/Conf/Laws.antt =====
-- When the configuration is complete, and what it is then.
use p2p_demo.Prelude.{◌≡◌, ◌≢◌, refl, ap, inl, inr, ◌↔◌, true, List, [], ◌∷◌, All, Bool-cases}
use p2p_demo.Wire.CString.{codes, is_empty, is_empty-ne, ne_empty}
use p2p_demo.Util.Decimal.{atoi}
use p2p_demo.Util.Files.{Files, file_exists, readlines}
use p2p_demo.Listener.State.{Conf, Status, success}
use p2p_demo.G04.State.{G04, Variables, getvar}
use p2p_demo.G04.Conf.{Setting, settings, apply_settings, read_lines, read_conf}

-- Every variable that a list of settings names has a value that is not empty.
abbrev AllSet : Variables → List Setting → Type 0
AllSet variables ss = All (λ (s : Setting). getvar variables s.name ≢ []) ss

-- Each of the eight variables that a configuration needs has a value that is not empty.
pub record IsComplete (variables : Variables) : Type 0 where
  pub neighbor_port : getvar variables (codes "neighborPort") ≢ []
  pub file_port : getvar variables (codes "filePort") ≢ []
  pub number_of_peers : getvar variables (codes "NumberOfPeers") ≢ []
  pub ttl : getvar variables (codes "TTL") ≢ []
  pub seed_nodes : getvar variables (codes "seedNodes") ≢ []
  pub is_seed_node : getvar variables (codes "isSeedNode") ≢ []
  pub local_files : getvar variables (codes "localFiles") ≢ []
  pub local_files_directory : getvar variables (codes "localFilesDirectory") ≢ []

AllSet-settings : (variables : Variables) → AllSet variables settings ↔ IsComplete variables
AllSet-settings variables = (
  λ (a, (b, (c, (d, (e, (f, (g, (h, _)))))))). record {
    neighbor_port = a;
    file_port = b;
    number_of_peers = c;
    ttl = d;
    seed_nodes = e;
    is_seed_node = f;
    local_files = g;
    local_files_directory = h;
  },
  λ k. (
    k.neighbor_port,
    (
      k.file_port,
      (
        k.number_of_peers,
        (k.ttl, (k.seed_nodes, (k.is_seed_node, (k.local_files, (k.local_files_directory, tt))))),
      ),
    ),
  ),
)

-- All the fields with the values of their variables.
stored : List Setting → Variables → Conf → Conf
stored [] variables conf = conf
stored (s ∷ ss) variables conf = stored ss variables (s.store (getvar variables s.name) conf)

apply_settings_complete :
    (ss : List Setting) (variables : Variables) (conf : Conf)
    → AllSet variables ss
    → apply_settings ss variables conf ≡ (stored ss variables conf, success)
unfolding apply_settings stored
apply_settings_complete [] variables conf h = refl
apply_settings_complete (s ∷ ss) variables conf (h, hs) =
    rw (is_empty-ne _ h) (apply_settings_complete ss variables _ hs)

AllSet-apply_settings :
    (ss : List Setting) (variables : Variables) (conf : Conf)
    → (apply_settings ss variables conf).1 ≡ success
    → AllSet variables ss
unfolding apply_settings
AllSet-apply_settings [] variables conf h = tt
AllSet-apply_settings (s ∷ ss) variables conf h =
    elim (Bool-cases (is_empty (getvar variables s.name))) [
      | inl missing ↦ absurd (cc (rw missing at h))
      | inr given ↦ (ne_empty _ given, AllSet-apply_settings ss variables _ (rw given at h))
    ]

-- `readConf` succeeds exactly when g04.conf can be opened and, with its lines read, each of the
-- eight variables has a value that is not empty.
pub read_conf-IsComplete :
    (files : Files) (g : G04)
    → ((read_conf files g).1 ≡ success) ↔ (
        (file_exists files (codes "g04.conf") ≡ true)
        × IsComplete (read_lines g.variables (readlines files (codes "g04.conf"))))
unfolding read_conf
read_conf-IsComplete files g =
    let variables = read_lines g.variables (readlines files (codes "g04.conf")) in
    elim (Bool-cases (file_exists files (codes "g04.conf"))) [
      | inl there ↦ rw there (
        λ h. (
          refl,
          (AllSet-settings variables).0 (AllSet-apply_settings settings variables g.conf h),
        ),
        λ h.
            ap (λ (r : Conf × Status). r.1)
              (apply_settings_complete settings variables g.conf
                ((AllSet-settings variables).1 h.1)),
      )
      | inr missing ↦ rw missing (λ h. absurd (cc h), λ h. absurd (cc (h.0)))
    ]

-- The configuration that the variables describe.
abbrev pub described_conf : Variables → Conf
described_conf variables = record {
  neighbor_port = atoi (getvar variables (codes "neighborPort"));
  file_port = atoi (getvar variables (codes "filePort"));
  number_of_peers = atoi (getvar variables (codes "NumberOfPeers"));
  ttl = atoi (getvar variables (codes "TTL"));
  seed_nodes_file = getvar variables (codes "seedNodes");
  is_seed_node = atoi (getvar variables (codes "isSeedNode"));
  local_files_file = getvar variables (codes "localFiles");
  local_files_directory = getvar variables (codes "localFilesDirectory");
}

-- When `readConf` succeeds, every field of the configuration comes from the variable of its name,
-- whatever the configuration was before.
pub read_conf-described :
    (files : Files) (g : G04)
    → (read_conf files g).1 ≡ success
    → (read_conf files g).0.conf ≡ described_conf ((read_conf files g).0.variables)
unfolding read_conf stored
read_conf-described files g h =
    let variables = read_lines g.variables (readlines files (codes "g04.conf")) in
    let (there, complete) = (read_conf-IsComplete files g).0 h in
    rw there (
      ap (λ (r : Conf × Status). r.0)
        (apply_settings_complete settings variables g.conf
          ((AllSet-settings variables).1 complete)))
