-- ===== src/Graph/Units.antt =====
-- graph.py `compile_plan_units`: the nodes in topological order, grouped into units of work.
pub mod Partition
use graph_coder.Base.{
  String, Bool, true, false, not, ◌&&◌, ◌||◌, List, [], ◌∷◌, ◌++◌, Option, none, some, is_nil, has,
  subset, keep, unique, sorted, ◌==◌, ok, ◌>>=◌, ◌>>◌, if◌then◌else◌,
}
use Prim.Native.String.{◌++◌ as str_append}
use graph_coder.Graph.Node.{
  GraphNode, ExecutionGraph, RouteSpec, NodeKind, Checked, ids, kind_name, is_composite,
}
use graph_coder.Graph.Validate.{topological_nodes}

pub record PlanUnit : Type 0 where
  pub id : String
  pub node_ids : List String
  pub depends_on : List String
  pub kind : NodeKind
  pub prompt : String
  pub write_scopes : List String
  pub route : RouteSpec

-- `==` on optional texts and on lists of texts.
unfoldable pub same_option : Option String → Option String → Bool
same_option none none = true
same_option (some a) (some b) = a == b
same_option _ _ = false

unfoldable pub same_list : List String → List String → Bool
same_list [] [] = true
same_list (a ∷ xs) (b ∷ ys) = a == b && same_list xs ys
same_list _ _ = false

-- `==` of the dataclass.
unfoldable pub same_route : RouteSpec → RouteSpec → Bool
unfolding same_option same_list
same_route a b =
    a.adapter == b.adapter
    && same_option a.model b.model
    && same_option a.effort b.effort
    && (same_option a.spawn_mode b.spawn_mode && same_list a.capabilities b.capabilities)

-- Whether `candidate` can be done in one prompt with `node`.
unfoldable pub alike : GraphNode → GraphNode → Bool
unfolding same_route kind_name
alike node candidate =
    not (is_composite candidate.role)
    && (same_route candidate.route node.route
        && (kind_name candidate.kind == kind_name node.kind
            && (subset candidate.depends_on node.depends_on
                && (subset node.depends_on candidate.depends_on && is_nil candidate.write_scopes))))

-- Whether `candidate` joins the group of `node`.
unfoldable pub joins : GraphNode → List String → GraphNode → Bool
joins node consumed candidate = not (has candidate.id consumed) && alike node candidate

-- The inner loop: the candidates that join, and what is consumed then.
unfoldable pub gather : GraphNode → List String → List GraphNode → List GraphNode × List String
unfolding joins
gather node consumed [] = ([], consumed)
gather node consumed (c ∷ cs) =
    let grown = gather node (c.id ∷ consumed) cs in
    let same = gather node consumed cs in
    if joins node consumed c then (c ∷ grown.0, grown.1) else same

-- `[node]`, and what `gather` adds for an atomic node that writes nothing.
unfoldable pub group_of : GraphNode → List String → List GraphNode → List GraphNode × List String
unfolding gather
group_of node consumed rest =
    if not (is_composite node.role) && is_nil node.write_scopes
    then (let (more, consumed') = gather node consumed rest in (node ∷ more, node.id ∷ consumed'))
    else (node ∷ [], node.id ∷ consumed)

-- `sep.join(xs)`.
unfoldable pub join : String → List String → String
join sep [] = ""
join sep (x ∷ []) = x
join sep (x ∷ y ∷ ys) = str_append x (str_append sep (join sep (y ∷ ys)))

-- The dependencies and the scopes of all items of a group.
unfoldable pub all_dependencies : List GraphNode → List String
all_dependencies [] = []
all_dependencies (n ∷ ns) = n.depends_on ++ all_dependencies ns

unfoldable pub all_scopes : List GraphNode → List String
all_scopes [] = []
all_scopes (n ∷ ns) = n.write_scopes ++ all_scopes ns

unfoldable pub prompts : List GraphNode → List String
prompts [] = []
prompts (n ∷ ns) =
    str_append (str_append "[" (str_append n.id "] "))
      (str_append n.title (str_append "\n" n.prompt))
    ∷ prompts ns

unfoldable pub unit_of : GraphNode → List GraphNode → PlanUnit
unfolding join all_dependencies all_scopes prompts sorted
unit_of node group =
    let node_ids = ids group in
    record {
      id = join "+" node_ids;
      node_ids = node_ids;
      depends_on = sorted (unique (keep (λ dep. not (has dep node_ids)) (all_dependencies group)));
      kind = node.kind;
      prompt = join "\n\n" (prompts group);
      write_scopes = sorted (unique (all_scopes group));
      route = node.route;
    }

-- The outer loop. The nodes behind a node in the list are those behind its index.
unfoldable pub compile_from : List String → List GraphNode → List PlanUnit
unfolding group_of unit_of
compile_from consumed [] = []
compile_from consumed (n ∷ ns) =
    let (group, consumed') = group_of n consumed ns in
    let skipped = compile_from consumed ns in
    let taken = unit_of n group ∷ compile_from consumed' ns in
    if has n.id consumed then skipped else taken

unfoldable pub compile_plan_units : ExecutionGraph → Checked (List PlanUnit)
unfolding compile_from topological_nodes
compile_plan_units g = do ordered ← topological_nodes g; ok (compile_from [] ordered)
