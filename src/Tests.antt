-- ===== src/Tests.antt =====
-- Concrete runs of the definitions, and the theorems at concrete inputs. The parameters that stand
-- for other libraries are instantiated here.
mod Libraries
mod ChunkRuns
mod UdpRuns
mod NormalRuns
mod GpbRuns
mod GnmiRuns
mod GuiRuns
mod ServerRuns
mod LogRuns
mod BridgeRuns
mod StartRuns
mod ProtoRuns
mod LaunchRuns
mod ListenerRuns
mod SignalRuns
mod OverlapRuns
mod CallRuns
mod WindowRuns
