-- ===== src/Logging/Objects.antt =====
-- The values that a log line is made of in app/utils/logging.py: any object of Python. A key of a dict is
-- the text that str gives for it.
use noxis_api_provider.Prelude.{String, Bool, ℤ, str_eq, if◌then◌else◌}

-- `tuple` is a tuple, which json.dumps prints as a list; `object` any other object, with what str gives,
-- which json.dumps prints for it by default=str.
mutual
  pub data Value : Type 0 where
    null : Value
    bool : Bool → Value
    int : ℤ → Value
    float : String → Value
    str : String → Value
    list : Values → Value
    dict : Entries → Value
    tuple : Values → Value
    object : String → Value

  pub data Values : Type 0 where
    nil : Values
    cons : Value → Values → Values

  pub data Entries : Type 0 where
    end : Entries
    entry : String → Value → Entries → Entries

-- d[k] = v
unfoldable pub put : String → Value → Entries → Entries
put k v end = entry k v end
put k v (entry j w d) = if str_eq j k then entry j v d else entry j w (put k v d)
