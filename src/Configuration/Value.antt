-- ===== src/Configuration/Value.antt =====
-- What `yaml.safe_load` returns.
use xaac_thin_client_os.Base.{Bool, ℤ, String}

mutual
  -- `other` is a float, a date, a set or bytes.
  pub data Yaml : Type 0 where
    null : Yaml
    bool : Bool → Yaml
    int : ℤ → Yaml
    text : String → Yaml
    other : Yaml
    list : Elements → Yaml
    dict : Entries → Yaml

  pub data Elements : Type 0 where
    none_left : Elements
    element : Yaml → Elements → Elements

  -- No key stands twice.
  pub data Entries : Type 0 where
    no_more : Entries
    entry : Yaml → Yaml → Entries → Entries
