-- ===== src/Config/Init/Reading.antt =====
-- What a reading that does not stop has found.
use mysql_governor.Base.{◌≡◌, refl, ◌≢◌, Option, none, some, [], arith, Bytes, codes}
use mysql_governor.Config.Result.{
  Stop, no_log, no_intervals, no_restrict, no_connector, no_default, Result, returns, stops,
  required, Returns, Returns->>=, Returns-eq, required-some,
}
use mysql_governor.Xml.{Node, get_elem_attr, children_of, find_element_with_name, remove_below}
use mysql_governor.Config.Limits.{System, add_users_of}
use mysql_governor.Config.Init.{
  attr_of, period_or, log_mode_of, read_default_limit, Parts, read_parts, fill, Initialised,
  config_init,
}

pub record IsReading (system : System) (root : Node) (parts : Parts) : Type 0 where
  pub has_log : find_element_with_name root (codes "log") ≡ some parts.log_xml
  pub has_intervals : find_element_with_name root (codes "intervals") ≡ some parts.intervals
  pub has_restrict : find_element_with_name root (codes "restrict") ≡ some parts.restrict
  pub has_connector : find_element_with_name root (codes "connector") ≡ some parts.connector
  pub default_xml : Node
  pub has_default : find_element_with_name root (codes "default") ≡ some default_xml
  pub reads_default : read_default_limit system default_xml ≡ returns parts.default_limit
  pub reads_users :
      add_users_of system parts.default_limit (children_of root) [] ≡ returns parts.account_limits

read_parts-IsReading :
    (system : System) (root : Node) → Returns (read_parts system root) (IsReading system root)
unfolding read_parts
read_parts-IsReading system root =
    Returns->>= Reading (required no_log (find_element_with_name root (codes "log"))) _
      λ log_xml el.
        Returns->>= Reading (log_mode_of (get_elem_attr log_xml (codes "mode"))) _ λ log_mode _.
          Returns->>= Reading
            (required no_intervals (find_element_with_name root (codes "intervals"))) _
            λ intervals ei.
              Returns->>= Reading
                (period_or (codes "60s")
                  (attr_of (find_element_with_name root (codes "restrict_mode")) (codes "unlimit")))
                _
                λ l_unlimit _.
                  Returns->>= Reading
                    (required no_restrict (find_element_with_name root (codes "restrict"))) _
                    λ restrict er.
                      Returns->>= Reading
                        (period_or (codes "60s") (get_elem_attr restrict (codes "level1"))) _
                        λ level1 _.
                          Returns->>= Reading
                            (period_or (codes "15m") (get_elem_attr restrict (codes "level2"))) _
                            λ level2 _.
                              Returns->>= Reading
                                (period_or (codes "1h") (get_elem_attr restrict (codes "level3"))) _
                                λ level3 _.
                                  Returns->>= Reading
                                    (period_or (codes "1d")
                                      (get_elem_attr restrict (codes "level4")))
                                    _
                                    λ level4 _.
                                      Returns->>= Reading
                                        (period_or (codes "1h")
                                          (get_elem_attr restrict (codes "timeout")))
                                        _
                                        λ timeout _.
                                          Returns->>= Reading
                                            (required no_connector
                                              (find_element_with_name root (codes "connector")))
                                            _
                                            λ connector ec.
                                              Returns->>= Reading
                                                (required no_default
                                                  (find_element_with_name root (codes "default")))
                                                _
                                                λ default_xml ed.
                                                  Returns->>= Reading
                                                    (read_default_limit system default_xml) _
                                                    λ default_limit em.
                                                      Returns->>= Reading
                                                        (add_users_of system default_limit
                                                          (children_of root) [])
                                                        _
                                                        λ account_limits eu.
                                                          reading (required-some _ _ _ el)
                                                            (required-some _ _ _ ei)
                                                            (required-some _ _ _ er)
                                                            (required-some _ _ _ ec) default_xml
                                                            (required-some _ _ _ ed) em eu
  where
    Reading : Parts → Type 0
    Reading = IsReading system root

    reading :
        {parts : Parts}
        → find_element_with_name root (codes "log") ≡ some parts.log_xml
        → find_element_with_name root (codes "intervals") ≡ some parts.intervals
        → find_element_with_name root (codes "restrict") ≡ some parts.restrict
        → find_element_with_name root (codes "connector") ≡ some parts.connector
        → (n : Node) → find_element_with_name root (codes "default") ≡ some n
        → read_default_limit system n ≡ returns parts.default_limit
        → add_users_of system parts.default_limit (children_of root) []
          ≡ returns parts.account_limits
        → IsReading system root parts
    reading l i r c n d m u = record {
      has_log = l;
      has_intervals = i;
      has_restrict = r;
      has_connector = c;
      default_xml = n;
      has_default = d;
      reads_default = m;
      reads_users = u;
    }

-- The parts behind a configuration.
abbrev pub Behind : System → Node → Initialised → Type 0
Behind system root r =
    (parts : Parts) × IsReading system root parts
    × (r.cfg ≡ fill system root parts)
    × (r.duplicate ≡ remove_below (codes "connector") root)

pub config_init-IsReading :
    (system : System) (root : Node) → Returns (config_init system (some root)) (Behind system root)
unfolding config_init
config_init-IsReading system root =
    Returns->>= (Behind system root) (read_parts system root) _ λ parts e. (
      parts,
      Returns-eq (IsReading system root) _ parts (read_parts-IsReading system root) e,
      refl,
      refl,
    )

-- The elements that have to be there.
pub data Section : Type 0 where
  log intervals restrict connector default : Section

unfoldable pub section_name : Section → Bytes
section_name log = codes "log"
section_name intervals = codes "intervals"
section_name restrict = codes "restrict"
section_name connector = codes "connector"
section_name default = codes "default"

found :
    {system : System} {root : Node} {parts : Parts}
    → IsReading system root parts
    → (s : Section) → (n : Node) × (find_element_with_name root (section_name s) ≡ some n)
unfolding section_name
found {parts = parts} h log = (parts.log_xml, h.has_log)
found {parts = parts} h intervals = (parts.intervals, h.has_intervals)
found {parts = parts} h restrict = (parts.restrict, h.has_restrict)
found {parts = parts} h connector = (parts.connector, h.has_connector)
found h default = (h.default_xml, h.has_default)

clash : {A : Type 0} {o : Option A} → (a : A) × (o ≡ some a) → o ≢ none
clash (a, e) h = ground arith

-- Without one of the five elements the reading stops.
pub config_init-missing :
    (system : System) (root : Node) (s : Section)
    → find_element_with_name root (section_name s) ≡ none
    → (e : Stop) × (config_init system (some root) ≡ stops e)
config_init-missing system root s h =
    stopped (config_init system (some root)) (config_init-IsReading system root)
  where
    stopped : (m : Result Initialised) → Returns m (Behind system root) → (e : Stop) × (m ≡ stops e)
    stopped (stops e) b = (e, refl)
    stopped (returns r) b = absurd (clash (found b.1 s) h)
