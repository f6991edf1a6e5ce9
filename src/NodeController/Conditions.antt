-- ===== src/NodeController/Conditions.antt =====
-- The conditions of a node: getConditionStatus.
use node_readiness_controlle.Prelude.{String, List, [], ◌∷◌, ◌==◌, if◌then◌else◌}
use node_readiness_controlle.Api.{NodeCondition, Node, condition_unknown}

-- The loop of getConditionStatus.
unfoldable pub status_in : List NodeCondition → String → String
status_in [] condition_type = condition_unknown
status_in (condition ∷ rest) condition_type =
    if condition.cond_type == condition_type
    then condition.status
    else status_in rest condition_type

abbrev pub get_condition_status : Node → String → String
get_condition_status node condition_type = status_in node.conditions condition_type
