-- ===== src/Discovery/Kinds.antt =====
-- The kinds that pkg/discovery/discovery.go lists.
use kubemirror.Prelude.{String, List, [], ◌∷◌, ◌++◌}

-- the kinds of Kubernetes and of its storage among the keys of deniedKinds
unfoldable pub denied_kubernetes_kinds : List String
denied_kubernetes_kinds =
    "Pod" ∷ "Node" ∷ "Event" ∷ "Endpoints" ∷ "EndpointSlice" ∷ "ComponentStatus" ∷ "Binding"
    ∷ "ReplicationController" ∷ "ControllerRevision" ∷ "PodMetrics" ∷ "NodeMetrics" ∷ "ReplicaSet"
    ∷ "Lease" ∷ "CSIDriver" ∷ "CSINode" ∷ "CSIStorageCapacity" ∷ "VolumeAttachment" ∷ "Namespace"
    ∷ "PersistentVolume" ∷ "ClusterRole" ∷ "ClusterRoleBinding" ∷ "CustomResourceDefinition"
    ∷ "APIService" ∷ "ValidatingWebhookConfiguration" ∷ "MutatingWebhookConfiguration"
    ∷ "PersistentVolumeClaim" ∷ "VolumeSnapshot" ∷ "VolumeSnapshotContent" ∷ []

-- those from Longhorn to Cilium
unfoldable pub denied_operator_kinds : List String
denied_operator_kinds =
    "Engine" ∷ "Replica" ∷ "InstanceManager" ∷ "ShareManager" ∷ "BackingImageManager"
    ∷ "BackingImageDataSource" ∷ "Orphan" ∷ "RecurringJob" ∷ "EngineImage" ∷ "BackingImage"
    ∷ "BackupTarget" ∷ "BackupVolume" ∷ "Setting" ∷ "Application" ∷ "ApplicationSet" ∷ "AppProject"
    ∷ "Workflow" ∷ "WorkflowTemplate" ∷ "CronWorkflow" ∷ "EventSource" ∷ "EventBus" ∷ "Sensor"
    ∷ "AnalysisRun" ∷ "AnalysisTemplate" ∷ "Experiment" ∷ "Rollout" ∷ "WorkflowArtifactGCTask"
    ∷ "WorkflowEventBinding" ∷ "WorkflowTaskResult" ∷ "WorkflowTaskSet" ∷ "Certificate"
    ∷ "CertificateRequest" ∷ "Issuer" ∷ "ClusterIssuer" ∷ "ExternalSecret" ∷ "SecretStore"
    ∷ "ClusterSecretStore" ∷ "PushSecret" ∷ "ACRAccessToken" ∷ "CloudsmithAccessToken"
    ∷ "ECRAuthorizationToken" ∷ "Fake" ∷ "GCRAccessToken" ∷ "GeneratorState" ∷ "GithubAccessToken"
    ∷ "Grafana" ∷ "MFA" ∷ "Password" ∷ "QuayAccessToken" ∷ "SSHKey" ∷ "STSSessionToken" ∷ "UUID"
    ∷ "VaultDynamicSecret" ∷ "Webhook" ∷ "Policy" ∷ "ClusterPolicy" ∷ "PolicyException"
    ∷ "NamespacedDeletingPolicy" ∷ "NamespacedImageValidatingPolicy" ∷ "NamespacedValidatingPolicy"
    ∷ "CleanupPolicy" ∷ "AdmissionReport" ∷ "BackgroundScanReport" ∷ "ClusterAdmissionReport"
    ∷ "ClusterBackgroundScanReport" ∷ "EphemeralReport" ∷ "PolicyReport" ∷ "UpdateRequest"
    ∷ "CiliumNetworkPolicy" ∷ "CiliumClusterwideNetworkPolicy" ∷ "CiliumEndpoint" ∷ "CiliumIdentity"
    ∷ "CiliumNode" ∷ "CiliumExternalWorkload" ∷ "CiliumLocalRedirectPolicy"
    ∷ "CiliumEgressGatewayPolicy" ∷ "CiliumGatewayClassConfig" ∷ "CiliumNodeConfig"
    ∷ "CiliumEnvoyConfig" ∷ "CiliumClusterwideEnvoyConfig" ∷ []

-- those from Traefik to the end
unfoldable pub denied_gateway_kinds : List String
denied_gateway_kinds =
    "API" ∷ "APIAccess" ∷ "APIAuth" ∷ "APIBundle" ∷ "APICatalogItem" ∷ "APIPlan" ∷ "APIPortal"
    ∷ "APIPortalAuth" ∷ "APIRateLimit" ∷ "APIVersion" ∷ "AIService" ∷ "ManagedApplication"
    ∷ "ManagedSubscription" ∷ "KongConsumer" ∷ "KongIngress" ∷ "KongPlugin" ∷ "KongClusterPlugin"
    ∷ "KongUpstreamPolicy" ∷ "KongConsumerGroup" ∷ "TCPIngress" ∷ "UDPIngress"
    ∷ "IngressClassParameters" ∷ "Plan" ∷ "OnionService" ∷ "OnionBalancedService" ∷ "Tor"
    ∷ "Gateway" ∷ "GatewayClass" ∷ "HTTPRoute" ∷ "TLSRoute" ∷ "TCPRoute" ∷ "UDPRoute" ∷ "GRPCRoute"
    ∷ "ReferenceGrant" ∷ "BackendTLSPolicy" ∷ "VMAgent" ∷ "VMAlert" ∷ "VMAlertmanager"
    ∷ "VMAlertmanagerConfig" ∷ "VMAuth" ∷ "VMCluster" ∷ "VMNodeScrape" ∷ "VMPodScrape" ∷ "VMProbe"
    ∷ "VMRule" ∷ "VMServiceScrape" ∷ "VMSingle" ∷ "VMStaticScrape" ∷ "VMScrapeConfig" ∷ "VMUser"
    ∷ "VMAnomaly" ∷ "Job" ∷ "CronJob" ∷ []

-- the keys of deniedKinds
unfoldable pub denied_kinds : List String
unfolding denied_kubernetes_kinds denied_operator_kinds denied_gateway_kinds
denied_kinds = denied_kubernetes_kinds ++ denied_operator_kinds ++ denied_gateway_kinds

-- the keys of highCardinalityKinds, which are only warned about
unfoldable pub high_cardinality_kinds : List String
high_cardinality_kinds =
    "ServiceAccount" ∷ "Role" ∷ "RoleBinding" ∷ "NetworkPolicy" ∷ "LimitRange" ∷ "ResourceQuota"
    ∷ "HorizontalPodAutoscaler" ∷ "ServiceEntry" ∷ "VirtualService" ∷ "DestinationRule"
    ∷ "EnvoyFilter" ∷ "Sidecar" ∷ "PeerAuthentication" ∷ "ServiceMonitor" ∷ "PodMonitor"
    ∷ "PrometheusRule" ∷ []
